-- ===== src/Trade/Pull.antt =====
-- The loop that `RecoverTrades` (go/v1/recover.go) and `ReconcileRepair` (go/v1/reconcile.go) run over
-- the trades that they have pulled from the Core: store, count, and settle what is not settled.

use fx_sdk.Trade.Unsettled.{unsettled}
use fx_sdk.Trade.Delivery.{persist_trade-cases}
use fx_sdk.Types.{TradeEvent}
use fx_sdk.Store.{World}
use fx_sdk.Wire.{TradeResponse}
use fx_sdk.Errors.{Result, err, ok, ok-injective}
use fx_sdk.Platform.{Platform}
use fx_sdk.Trade.Persist.{Persisted, persist_trade}
use fx_sdk.Trade.Settle.{Handler, settle}
use fx_sdk.Common.{
  Bool, List, Option, [], arith, false, refl, true, ℕ, ◌+◌, ◌∷◌, ◌≡◌, ◌≤◌, ap, inl, inr, length,
  sym, ◌∙◌,
}

-- The counters of `RecoverResult` and `RepairResult`.
pub record Counts : Type 0 where
  pub recovered : ℕ
  pub settled : ℕ
  pub settle_failed : ℕ
  pub failed : ℕ

abbrev pub zero_counts : Counts
zero_counts = record { recovered = 0; settled = 0; settle_failed = 0; failed = 0 }

module _ (x : Platform) where
  open x use {Decimal, Numeric}

  abbrev pub count_settled : Counts → Result (Unit {0}) → Counts
  count_settled c (ok _) = record c { settled = c.settled + 1 }
  count_settled c (err _) = record c { settle_failed = c.settle_failed + 1 }

  abbrev pub count_inserted : Bool → Counts → Counts
  count_inserted true c = record c { recovered = c.recovered + 1 }
  count_inserted false c = c

  -- Settle whatever is not settled yet.
  unfoldable pub settle_unless :
      Bool
      → Option (Handler Decimal)
      → Counts
      → TradeEvent Decimal
      → World Numeric Decimal
      → Counts × World Numeric Decimal
  unfolding settle
  settle_unless true handler c e w = (c, w)
  settle_unless false handler c e w = let (r, w1) = settle x handler e w in (count_settled c r, w1)

  -- The rest of the loop's body for a trade that is stored.
  unfoldable pub after_pull :
      Option (Handler Decimal)
      → Counts
      → Persisted x
      → World Numeric Decimal
      → Counts × World Numeric Decimal
  unfolding settle_unless
  after_pull handler c p w = settle_unless p.settled handler (count_inserted p.inserted c) p.event w

  unfoldable pub pull_result :
      Option (Handler Decimal)
      → Counts
      → Result (Persisted x) × World Numeric Decimal
      → Counts × World Numeric Decimal
  unfolding after_pull
  pull_result handler c (err e, w) = (record c { failed = c.failed + 1 }, w)
  pull_result handler c (ok p, w) = after_pull handler c p w

  -- The loop.
  unfoldable pub pull_all :
      Option (Handler Decimal)
      → List TradeResponse
      → Counts
      → World Numeric Decimal
      → Counts × World Numeric Decimal
  unfolding pull_result persist_trade
  pull_all handler [] c w = (c, w)
  pull_all handler (resp ∷ rest) c w =
      let (c1, w1) = pull_result handler c (persist_trade x resp w) in pull_all handler rest c1 w1

  -- One more trade is counted at most once as settled, failed to settle or failed to be stored, and is
  -- counted as recovered only if its settlement was then tried.
  pub record CountsWithin (n : ℕ) (c d : Counts) : Type 0 where
    pub counted_le :
        d.settled + d.settle_failed + d.failed ≤ c.settled + c.settle_failed + c.failed + n
    pub recovered_le :
        d.recovered + c.settled + c.settle_failed ≤ c.recovered + d.settled + d.settle_failed
    pub failed_grows : c.failed ≤ d.failed

  after_pull-counts :
      (b s : Bool) (handler : Option (Handler Decimal)) (c : Counts) (e : TradeEvent Decimal)
      (w : World Numeric Decimal)
      → (b ≡ true → s ≡ false)
      → CountsWithin 1 c (settle_unless s handler (count_inserted b c) e w).0
  unfolding settle_unless
  after_pull-counts true true handler c e w h = cc (h refl)
  after_pull-counts false true handler c e w h = omega arith
  after_pull-counts b false handler c e w h = go b (settle x handler e w).0
    where
      go :
          (b : Bool) (r : Result (Unit {0}))
          → CountsWithin 1 c (count_settled (count_inserted b c) r)
      go true (ok u) = omega arith
      go true (err why) = omega arith
      go false (ok u) = omega arith
      go false (err why) = omega arith

  -- A trade that a run has inserted is reported as not settled.
  inserted_unsettled :
      (resp : TradeResponse) (w : World Numeric Decimal) {p : Persisted x}
      → (persist_trade x resp w).0 ≡ ok p
      → p.inserted ≡ true
      → p.settled ≡ false
  inserted_unsettled resp w {p} h ins = elim (persist_trade-cases x resp w) [
    | inl (e, failed, _) ↦ cc
    | inr (q, ev, ek, (pe, inl (_, unsettled, s)), inl answer) ↦
        let same : q ≡ p = ok-injective (sym answer ∙ h) in
        ap (λ (t : Persisted x). t.settled) (sym same) ∙ unsettled
    | inr (q, ev, ek, (pe, inr (not_inserted, old, _)), inl answer) ↦
        let same : q ≡ p = ok-injective (sym answer ∙ h) in
        let no_insert : p.inserted ≡ false =
          ap (λ (t : Persisted x). t.inserted) (sym same) ∙ not_inserted in
        cc
    | inr (q, ev, ek, _, inr (e, failed)) ↦ cc
  ]

  pull_result-counts :
      (handler : Option (Handler Decimal)) (c : Counts)
      (r : Result (Persisted x) × World Numeric Decimal)
      → ((p : Persisted x) → r.0 ≡ ok p → p.inserted ≡ true → p.settled ≡ false)
      → CountsWithin 1 c (pull_result handler c r).0
  unfolding pull_result after_pull
  pull_result-counts handler c (err e, w) h = omega arith
  pull_result-counts handler c (ok p, w) h =
      after_pull-counts p.inserted p.settled handler c p.event w (h p refl)

  -- What a pull adds to the counters: settled, failed to settle and failed to be stored grow together by at
  -- most the number of messages, and recovered by no more than settled and failed to settle together.
  pub pull_all-counts :
      (handler : Option (Handler Decimal)) (raw : List TradeResponse) (c : Counts)
      (w : World Numeric Decimal)
      → CountsWithin (length raw) c (pull_all handler raw c w).0
  unfolding pull_all
  pull_all-counts handler [] c w = omega arith
  pull_all-counts handler (resp ∷ rest) c w =
      let first =
        pull_result-counts handler c (persist_trade x resp w) (λ p. inserted_unsettled resp w) in
      let (c1, w1) = pull_result handler c (persist_trade x resp w) in
      let others = pull_all-counts handler rest c1 w1 in
      omega (
        arith, first.counted_le, first.recovered_le, first.failed_grows, others.counted_le,
        others.recovered_le, others.failed_grows,
      )
