-- ===== src/Trade/Tally.antt =====
-- What the counters of a pull (go/v1/recover.go, go/v1/reconcile.go) count: the calls of the handler, and
-- the trades that are stored.

use mathlib.Core.Path.{subst}
use fx_sdk.Trade.Progress.{persist_trade-Quiet}
use fx_sdk.Trade.Delivery.{persist_trade-cases}
use fx_sdk.Store.Laws.{exec-db, trace-exec}
use fx_sdk.Trade.Statements.{
  event_key, fail_found, fail_row, fail_with, failure_at, mark_settled_row, next_attempts,
  update_at, record_failure,
}
use fx_sdk.Wire.{TradeResponse}
use fx_sdk.Types.{TradeEvent, failed}
use fx_sdk.Platform.{Platform}
use fx_sdk.Trade.Persist.{Persisted, persist_trade}
use fx_sdk.Common.{
  List, Option, Text, [], ap, arith, false, inl, inr, length, none, refl, some, sym, true, ℕ, ◌+◌,
  ◌∙◌, ◌∷◌, ◌≡◌, ◌≤◌, ◌⊎◌, Bool,
}
use fx_sdk.Trade.Settle.{Handler, after_handler, mark_settled, settle}
use fx_sdk.Errors.{Error, Result, err, handler_failed, ok, ok-injective}
use fx_sdk.Store.{
  Db, Effect, TradeKey, TradeRow, World, acked, advance, cancel_sent, emit, exec, find_trade,
  handled, notified, submitted, update_trade,
}
use fx_sdk.Trade.Pull.{
  Counts, after_pull, count_inserted, count_settled, pull_all, pull_result, settle_unless,
  CountsWithin, pull_all-counts,
}

-- The calls of the handler that a trace has.
abbrev pub calls_of : {D : Type 0} → List (Effect D) → ℕ
calls_of [] = 0
calls_of (handled e ∷ s) = calls_of s + 1
calls_of (acked r ∷ s) = calls_of s
calls_of (submitted r ∷ s) = calls_of s
calls_of (cancel_sent r ∷ s) = calls_of s
calls_of (notified e ∷ s) = calls_of s

length-update_trade :
    {N : Type 0} (k : TradeKey) (f : TradeRow N → TradeRow N) (rs : List (TradeRow N))
    → length (update_trade k f rs) ≡ length rs
unfolding update_trade
length-update_trade k f [] = refl
length-update_trade k f (r ∷ rs) = omega (arith, length-update_trade k f rs)

module _ (x : Platform) where
  open x use {Decimal, Numeric}

  abbrev pub stored_count : World Numeric Decimal → ℕ
  stored_count w = length w.db.trades

  exec-count :
      (s : Db Numeric → Option (Unit {0} × Db Numeric)) (w : World Numeric Decimal)
      → ((u : Unit {0}) (d : Db Numeric)
          → s w.db ≡ some (u, d)
          → length d.trades ≡ length w.db.trades)
      → stored_count (exec x s w).1 ≡ stored_count w
  exec-count s w h = elim (exec-db x s w) [
    | inl same ↦ ap (λ (d : Db Numeric). length d.trades) same
    | inr (u, d, ran, at) ↦ rw at (h u d ran)
  ]

  update_at-count :
      (k : Option TradeKey) (f : TradeRow Numeric → TradeRow Numeric) (d d' : Db Numeric)
      (u : Unit {0})
      → update_at x k f d ≡ some (u, d')
      → length d'.trades ≡ length d.trades
  unfolding update_at
  update_at-count none f d d' u h = cc
  update_at-count (some k) f d d' u h =
      let at : d'.trades ≡ update_trade k f d.trades = cc in
      ap length at ∙ length-update_trade k f d.trades

  failure_at-count :
      (k : Option TradeKey) (why : Text) (d d' : Db Numeric) (u : Unit {0})
      → failure_at x k why d ≡ some (u, d')
      → length d'.trades ≡ length d.trades
  unfolding failure_at fail_found fail_with
  failure_at-count none why d d' u h = cc
  failure_at-count (some k) why d d' u h = go (find_trade k d.trades) h
    where
      last :
          (n : Option ℕ) → fail_with x k why d n ≡ some (u, d') → length d'.trades ≡ length d.trades
      last none j = cc
      last (some n) j = update_at-count (some k) (fail_row x why n) d d' u j

      go :
          (f : Option (TradeRow Numeric))
          → fail_found x k why d f ≡ some (u, d')
          → length d'.trades ≡ length d.trades
      go none j = let same : d' ≡ d = cc in ap (λ (v : Db Numeric). length v.trades) same
      go (some r) j = last (next_attempts r.settle_attempts) j

  -- One settlement: the handler is called once, no row is stored or lost, and the result is the handler's.
  record Settles (handler : Handler Decimal) (w : World Numeric Decimal)
      (r : Result (Unit {0}) × World Numeric Decimal) : Type 0 where
    pub called : calls_of r.1.trace ≡ calls_of w.trace + 1
    pub kept : stored_count r.1 ≡ stored_count w
    pub accepted : ((n : ℕ) (e : TradeEvent Decimal) → handler n e ≡ none) → r.0 ≡ ok tt
    pub refused :
        ((n : ℕ) (e : TradeEvent Decimal) → (why : Text) × (handler n e ≡ some why))
        → (e : Error) × (r.0 ≡ err e)

  settle-Settles :
      (handler : Handler Decimal) (e : TradeEvent Decimal) (w : World Numeric Decimal)
      → Settles handler w (settle x (some handler) e w)
  unfolding settle after_handler mark_settled mark_settled_row record_failure
  settle-Settles handler e w = go (handler w.tick e) refl
    where
      w1 : World Numeric Decimal
      w1 = emit (handled e) (advance w)

      go : (o : Option Text) → handler w.tick e ≡ o → Settles handler w (after_handler x e o w1)
      go none h = record {
        called = ap calls_of (trace-exec x (mark_settled_row x e) w1);
        kept = exec-count (mark_settled_row x e) w1 λ u d j.
            update_at-count (event_key x e) (λ r. record r { settled = true; settle_error = none })
              w1.db d u j;
        accepted = λ all. refl;
        refused = λ all.
            let (why, said) = all w.tick e in let wrong : none ≡ some why = sym h ∙ said in cc;
      }
      go (some why) h = record {
        called = ap calls_of (trace-exec x (record_failure x e why) w1);
        kept =
            exec-count (record_failure x e why) w1
              λ u d j. failure_at-count (event_key x e) why w1.db d u j;
        accepted = λ all. let wrong : some why ≡ none = sym h ∙ all w.tick e in cc;
        refused = λ all. (handler_failed why, refl);
      }

  -- From the counters and the state before a pull to those after it.
  pub record Tally (handler : Handler Decimal) (c : Counts) (w : World Numeric Decimal)
      (r : Counts × World Numeric Decimal) : Type 0 where
    pub called :
        r.0.settled + r.0.settle_failed + calls_of w.trace
        ≡ c.settled + c.settle_failed + calls_of r.1.trace
    pub accepted :
        ((n : ℕ) (e : TradeEvent Decimal) → handler n e ≡ none)
        → r.0.settle_failed ≡ c.settle_failed
    pub refused :
        ((n : ℕ) (e : TradeEvent Decimal) → (why : Text) × (handler n e ≡ some why))
        → r.0.settled ≡ c.settled
    pub stored_ge : stored_count w + r.0.recovered ≤ stored_count r.1 + c.recovered
    pub stored_le :
        stored_count r.1 + c.recovered + c.failed ≤ stored_count w + r.0.recovered + r.0.failed

  Tally-trans :
      (handler : Handler Decimal) (c : Counts) (w : World Numeric Decimal)
      (r s : Counts × World Numeric Decimal)
      → Tally handler c w r
      → Tally handler r.0 r.1 s
      → Tally handler c w s
  Tally-trans handler c w r s h k = record {
    called = omega (arith, h.called, k.called);
    accepted = λ all. k.accepted all ∙ h.accepted all;
    refused = λ all. k.refused all ∙ h.refused all;
    stored_ge = omega (arith, h.stored_ge, k.stored_ge);
    stored_le = omega (arith, h.stored_le, k.stored_le);
  }

  -- How a trade that is pulled is stored: a call that fails may have added one row, one that succeeds has
  -- added one exactly if it says so.
  abbrev Grown : World Numeric Decimal → Result (Persisted x) × World Numeric Decimal → Type 0
  Grown w (err e, v) = (stored_count w ≤ stored_count v) × (stored_count v ≤ stored_count w + 1)
  Grown w (ok p, v) =
      ((p.inserted ≡ true) × (stored_count v ≡ stored_count w + 1))
      ⊎ ((p.inserted ≡ false) × (stored_count v ≡ stored_count w))

  Grown-ok :
      (w : World Numeric Decimal) (r : Result (Persisted x) × World Numeric Decimal)
      (p : Persisted x)
      → r.0 ≡ ok p
      → Grown w (ok p, r.1)
      → Grown w r
  Grown-ok w (ok q, v) p h g =
      subst (λ (t : Persisted x). Grown w (ok t, v)) (ok-injective (sym h)) g
  Grown-ok w (err e, v) p h g = cc

  Grown-err :
      (w : World Numeric Decimal) (r : Result (Persisted x) × World Numeric Decimal) (e : Error)
      → r.0 ≡ err e
      → (stored_count w ≤ stored_count r.1) × (stored_count r.1 ≤ stored_count w + 1)
      → Grown w r
  Grown-err w (err e', v) e h g = g
  Grown-err w (ok q, v) e h g = cc

  persist_trade-Grown :
      (resp : TradeResponse) (w : World Numeric Decimal) → Grown w (persist_trade x resp w)
  persist_trade-Grown resp w =
      let r = persist_trade x resp w in
      elim (persist_trade-cases x resp w) [
        | inl (e, failed, same) ↦
            let n : stored_count r.1 ≡ stored_count w =
              ap (λ (d : Db Numeric). length d.trades) same in
            Grown-err w r e failed (omega arith, omega arith)
        | inr (p, ev, ek, (pe, inl (inserted, _, s)), inl answer) ↦
            let n : stored_count r.1 ≡ stored_count w + 1 = omega (arith, ap length s.trades_eq) in
            Grown-ok w r p answer (inl (inserted, n))
        | inr (p, ev, ek, (pe, inl (inserted, _, s)), inr (e, failed)) ↦
            let n : stored_count r.1 ≡ stored_count w + 1 = omega (arith, ap length s.trades_eq) in
            Grown-err w r e failed (omega arith, omega arith)
        | inr (p, ev, ek, (pe, inr (not_inserted, _, same)), inl answer) ↦
            let n : stored_count r.1 ≡ stored_count w =
              ap (λ (d : Db Numeric). length d.trades) same in
            Grown-ok w r p answer (inr (not_inserted, n))
        | inr (p, ev, ek, (pe, inr (not_inserted, _, same)), inr (e, failed)) ↦
            let n : stored_count r.1 ≡ stored_count w =
              ap (λ (d : Db Numeric). length d.trades) same in
            Grown-err w r e failed (omega arith, omega arith)
      ]

  inserted-Tally :
      (inserted : Bool) (handler : Handler Decimal) (c : Counts) (w v : World Numeric Decimal)
      → calls_of v.trace ≡ calls_of w.trace
      → ((inserted ≡ true) × (stored_count v ≡ stored_count w + 1))
        ⊎ ((inserted ≡ false) × (stored_count v ≡ stored_count w))
      → Tally handler c w (count_inserted x inserted c, v)
  inserted-Tally true handler c w v quiet (inl (t, n)) = record {
    called = omega (arith, quiet);
    accepted = λ all. refl;
    refused = λ all. refl;
    stored_ge = omega (arith, n);
    stored_le = omega (arith, n);
  }
  inserted-Tally false handler c w v quiet (inr (f, n)) = record {
    called = omega (arith, quiet);
    accepted = λ all. refl;
    refused = λ all. refl;
    stored_ge = omega (arith, n);
    stored_le = omega (arith, n);
  }
  inserted-Tally true handler c w v quiet (inr (f, n)) = cc
  inserted-Tally false handler c w v quiet (inl (t, n)) = cc

  settled-Tally :
      (handler : Handler Decimal) (d : Counts) (v : World Numeric Decimal)
      (r : Result (Unit {0}) × World Numeric Decimal)
      → Settles handler v r
      → Tally handler d v (count_settled x d r.0, r.1)
  settled-Tally handler d v (ok u, v1) s = record {
    called = omega (arith, s.called);
    accepted = λ all. refl;
    refused = λ all. let (why, failed) = s.refused all in cc;
    stored_ge = omega (arith, s.kept);
    stored_le = omega (arith, s.kept);
  }
  settled-Tally handler d v (err why, v1) s = record {
    called = omega (arith, s.called);
    accepted = λ all. let failed = s.accepted all in cc;
    refused = λ all. refl;
    stored_ge = omega (arith, s.kept);
    stored_le = omega (arith, s.kept);
  }

  settle_unless-Tally :
      (b : Bool) (handler : Handler Decimal) (d : Counts) (e : TradeEvent Decimal)
      (v : World Numeric Decimal)
      → Tally handler d v (settle_unless x b (some handler) d e v)
  unfolding settle_unless
  settle_unless-Tally true handler d e v = record {
    called = refl;
    accepted = λ all. refl;
    refused = λ all. refl;
    stored_ge = omega arith;
    stored_le = omega arith;
  }
  settle_unless-Tally false handler d e v =
      settled-Tally handler d v (settle x (some handler) e v) (settle-Settles handler e v)

  pull_result-Tally :
      (handler : Handler Decimal) (c : Counts) (w : World Numeric Decimal)
      (r : Result (Persisted x) × World Numeric Decimal)
      → calls_of r.1.trace ≡ calls_of w.trace
      → Grown w r
      → Tally handler c w (pull_result x (some handler) c r)
  unfolding pull_result after_pull
  pull_result-Tally handler c w (err e, v) quiet (low, high) = record {
    called = omega (arith, quiet);
    accepted = λ all. refl;
    refused = λ all. refl;
    stored_ge = omega (arith, low);
    stored_le = omega (arith, high);
  }
  pull_result-Tally handler c w (ok p, v) quiet grown =
      let d = count_inserted x p.inserted c in
      Tally-trans handler c w (d, v) (settle_unless x p.settled (some handler) d p.event v)
        (inserted-Tally p.inserted handler c w v quiet grown)
        (settle_unless-Tally p.settled handler d p.event v)

  pull-Tally :
      (handler : Handler Decimal) (raw : List TradeResponse) (c : Counts)
      (w : World Numeric Decimal)
      → Tally handler c w (pull_all x (some handler) raw c w)
  unfolding pull_all
  pull-Tally handler [] c w = record {
    called = refl;
    accepted = λ all. refl;
    refused = λ all. refl;
    stored_ge = omega arith;
    stored_le = omega arith;
  }
  pull-Tally handler (resp ∷ rest) c w =
      let r = persist_trade x resp w in
      let first =
        pull_result-Tally handler c w r (ap calls_of ((persist_trade-Quiet x resp).same w))
          (persist_trade-Grown resp w) in
      let (c1, w1) = pull_result x (some handler) c r in
      Tally-trans handler c w (c1, w1) (pull_all x (some handler) rest c1 w1) first
        (pull-Tally handler rest c1 w1)

  -- What the counters of a pull count: settled and failed to settle together grow by exactly the calls of
  -- the handler, failed to settle stays if the handler accepts every event, and settled if it refuses
  -- every one; recovered grows by at most the rows that the pull stores, and by no fewer than these less
  -- the trades that are counted as failed, whose storing may have gone unanswered. The three of settled,
  -- failed to settle and failed grow together by at most one for each trade of the answer, and recovered
  -- by no more than settled and failed to settle together.
  pub pull_all-Tally :
      (handler : Handler Decimal) (raw : List TradeResponse) (c : Counts)
      (w : World Numeric Decimal)
      → Tally handler c w (pull_all x (some handler) raw c w)
        × CountsWithin x (length raw) c (pull_all x (some handler) raw c w).0
  pull_all-Tally handler raw c w =
      (pull-Tally handler raw c w, pull_all-counts x (some handler) raw c w)
