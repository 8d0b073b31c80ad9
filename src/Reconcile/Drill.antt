-- ===== src/Reconcile/Drill.antt =====
-- `ReconcileDiff` of go/v1/reconcile.go: which trades of an hour diverge. Go walks a map in no fixed
-- order; here the local trades are walked as the rows came.

use fx_sdk.Reconcile.Held.{Any-find_local, CopyWith, DistinctIds, IsCopy, find_local-Any}
use mathlib.Core.Path.{subst}
use fx_sdk.Reconcile.Window.{valid_hour, window}
use fx_sdk.Recover.Query.{to_trades}
use fx_sdk.Recover.Run.{get_trades_raw}
use fx_sdk.Reconcile.Local.{find_local, local_trades}
use fx_sdk.Wire.{TradeResponse}
use fx_sdk.Errors.{Result, err, invalid_hour, ok, partner_id_required}
use fx_sdk.Platform.{Platform}
use fx_sdk.Types.{
  LocalTrade, ReconcileParams, Trade, TradeDiff, TradeMismatch, divergent, divergent-false,
}
use fx_sdk.Common.{
  All, Bool, List, Option, Text, [], arith, eq_ℤ, false, if◌then◌else◌, is_empty, length, none,
  refl, some, some-injective, sym, true, ℕ, ℤ, ◌&&◌, ◌||◌, ◌↔◌, ◌∙◌, ◌∷◌, ◌≡◌, Any, eq_ℤ_iff,
}
use fx_sdk.Reconcile.Diff.{Agree, compare_trade, compare_trade-Agree}
use fx_sdk.Store.{Action, pure, raise, ◌>>=◌}

-- `seen[key]`
unfoldable pub is_seen : ℤ → ℤ → List Trade → Bool
is_seen trade order [] = false
is_seen trade order (ct ∷ cts) =
    (eq_ℤ ct.trade_id trade && eq_ℤ ct.order_id order) || is_seen trade order cts

-- What the loop over the Core's trades appends.
pub record Findings : Type 0 where
  pub missing_locally : List Trade
  pub mismatched : List TradeMismatch
  pub unsettled : List LocalTrade

module _ (x : Platform) where
  open x use {Decimal, Numeric}

  abbrev mismatch_of : Trade → LocalTrade → List Text → TradeMismatch
  mismatch_of ct lt fields = record {
    trade_id = ct.trade_id;
    order_id = ct.order_id;
    fields = fields;
    core = ct;
    local = lt;
  }

  abbrev with_mismatch : Trade → LocalTrade → List Text → Findings → Findings
  with_mismatch ct lt [] f = f
  with_mismatch ct lt (field ∷ fields) f = record f {
    mismatched = mismatch_of ct lt (field ∷ fields) ∷ f.mismatched;
  }

  abbrev with_unsettled : Bool → LocalTrade → Findings → Findings
  with_unsettled true lt f = f
  with_unsettled false lt f = record f { unsettled = lt ∷ f.unsettled }

  -- The body of the loop, before the findings of the trades after it.
  abbrev pub classify : Trade → Option LocalTrade → Findings → Findings
  classify ct none f = record f { missing_locally = ct ∷ f.missing_locally }
  classify ct (some lt) f =
      with_mismatch ct lt (compare_trade x ct lt) (with_unsettled lt.settled lt f)

  unfoldable pub inspect : List Trade → List LocalTrade → Findings
  unfolding find_local compare_trade
  inspect [] local = record { missing_locally = []; mismatched = []; unsettled = [] }
  inspect (ct ∷ cts) local =
      classify ct (find_local ct.trade_id ct.order_id local) (inspect cts local)

  -- The loop over the local trades.
  unfoldable pub unseen : List Trade → List LocalTrade → List LocalTrade
  unfolding is_seen
  unseen core [] = []
  unseen core (lt ∷ m) =
      let rest = unseen core m in if is_seen lt.trade_id lt.order_id core then rest else lt ∷ rest

  unfoldable pub diff_of : Text → ℤ → List Trade → List LocalTrade → TradeDiff
  unfolding inspect unseen
  diff_of day hour core local =
      let f = inspect core local in
      record {
        day = day;
        hour = hour;
        core_trades = length core;
        local_trades = length local;
        missing_locally = f.missing_locally;
        missing_remotely = unseen core local;
        mismatched = f.mismatched;
        unsettled = f.unsettled;
      }

  abbrev after_rows : ReconcileParams → List TradeResponse → List LocalTrade → Action x TradeDiff
  after_rows p raw local = pure x (diff_of p.day p.hour (to_trades raw) local)

  unfoldable pub after_raw : ReconcileParams → ℕ → List TradeResponse → Action x TradeDiff
  unfolding local_trades diff_of
  after_raw p hour raw = do local ← local_trades x p.day hour; after_rows p raw local

  abbrev diff_window : ReconcileParams → Option ℕ → Result (Text × Text) → Action x TradeDiff
  diff_window p (some hour) (ok (from, to)) = do
    raw ← get_trades_raw x p.partner_id p.day from to true
    after_raw p hour raw
  diff_window p none (ok bounds) = raise x invalid_hour
  diff_window p hour (err e) = raise x e

  -- `ReconcileDiff`
  unfoldable pub reconcile_diff : Option ReconcileParams → Action x TradeDiff
  unfolding window get_trades_raw after_raw
  reconcile_diff none = raise x partner_id_required
  reconcile_diff (some p) =
      if is_empty p.partner_id
      then raise x partner_id_required
      else diff_window p (valid_hour p.hour) (window p)

  -- The Core's trade is stored, by its two ids, with the same values.
  abbrev pub HeldLocally : List LocalTrade → Trade → Type 0
  HeldLocally local ct = Any (CopyWith (Agree x ct) ct) local

  -- The stored trade is among the Core's, by its two ids.
  abbrev pub HeldRemotely : List Trade → LocalTrade → Type 0
  HeldRemotely core lt = Any (λ (ct : Trade). IsCopy ct lt) core

  -- What the loop finds of a trade.
  FoundLocally : List LocalTrade → Trade → Type 0
  FoundLocally local ct =
      (lt : LocalTrade) × (find_local ct.trade_id ct.order_id local ≡ some lt) × Agree x ct lt

  AllFound-AllHeld :
      (local : List LocalTrade)
      → DistinctIds local
      → (core : List Trade) → All (FoundLocally local) core ↔ All (HeldLocally local) core
  unfolding FoundLocally
  AllFound-AllHeld local d [] = ((λ h. tt), λ h. tt)
  AllFound-AllHeld local d (ct ∷ cts) =
      let (forth, back) = AllFound-AllHeld local d cts in
      (
        (λ h. (find_local-Any (Agree x ct) ct local h.0.0 h.0.1 h.0.2, forth h.1)),
        λ h. (Any-find_local (Agree x ct) ct local d h.0, back h.1),
      )

  is_seen-HeldRemotely :
      (core : List Trade) (lt : LocalTrade)
      → (is_seen lt.trade_id lt.order_id core ≡ true) ↔ HeldRemotely core lt
  unfolding is_seen
  is_seen-HeldRemotely [] lt = ((λ h. cc), λ h. elim h [ ])
  is_seen-HeldRemotely (ct ∷ cts) lt = ground (
    arith,
    eq_ℤ_iff ct.trade_id lt.trade_id,
    eq_ℤ_iff ct.order_id lt.order_id,
    is_seen-HeldRemotely cts lt,
  )

  Clean : Findings → Type 0
  Clean f = (f.missing_locally ≡ []) × (f.mismatched ≡ [])

  classify-Clean :
      (ct : Trade) (local : List LocalTrade) (f : Findings)
      → Clean (classify ct (find_local ct.trade_id ct.order_id local) f)
        ↔ (FoundLocally local ct × Clean f)
  unfolding Clean FoundLocally
  classify-Clean ct local f = go (find_local ct.trade_id ct.order_id local) refl
    where
      fields :
          (lt : LocalTrade) (b : Bool) (l : List Text)
          → compare_trade x ct lt ≡ l
          → find_local ct.trade_id ct.order_id local ≡ some lt
          → (((with_mismatch ct lt l (with_unsettled b lt f)).missing_locally ≡ [])
              × ((with_mismatch ct lt l (with_unsettled b lt f)).mismatched ≡ []))
            ↔ (FoundLocally local ct × ((f.missing_locally ≡ []) × (f.mismatched ≡ [])))
      fields lt true [] same found =
          ((λ h. ((lt, found, (compare_trade-Agree x ct lt).0 same), h)), λ h. h.1)
      fields lt false [] same found =
          ((λ h. ((lt, found, (compare_trade-Agree x ct lt).0 same), h)), λ h. h.1)
      fields lt b (t ∷ ts) same found = (
        (λ h. absurd (wrong b h.1)),
        λ h.
            let at : h.0.0 ≡ lt = some-injective (sym h.0.1 ∙ found) in
            let agree : Agree x ct lt = subst (Agree x ct) at h.0.2 in
            let nil = (compare_trade-Agree x ct lt).1 agree in
            let no : t ∷ ts ≡ [] = sym same ∙ nil in cc,
      )
        where
          wrong :
              (b : Bool)
              → (with_mismatch ct lt (t ∷ ts) (with_unsettled b lt f)).mismatched ≡ []
              → ⊥
          wrong true h = cc
          wrong false h = cc

      go :
          (o : Option LocalTrade)
          → find_local ct.trade_id ct.order_id local ≡ o
          → (((classify ct o f).missing_locally ≡ []) × ((classify ct o f).mismatched ≡ []))
            ↔ (FoundLocally local ct × ((f.missing_locally ≡ []) × (f.mismatched ≡ [])))
      go none found = ((λ h. cc), λ h. let no : some h.0.0 ≡ none = sym h.0.1 ∙ found in cc)
      go (some lt) found = fields lt lt.settled (compare_trade x ct lt) refl found

  inspect-Clean :
      (core : List Trade) (local : List LocalTrade)
      → Clean (inspect core local) ↔ All (FoundLocally local) core
  unfolding inspect Clean
  inspect-Clean [] local = ((λ h. tt), λ h. (refl, refl))
  inspect-Clean (ct ∷ cts) local =
      let (forth, back) = classify-Clean ct local (inspect cts local) in
      let (forth', back') = inspect-Clean cts local in
      ((λ h. let (held, clean) = forth h in (held, forth' clean)), λ h. back (h.0, back' h.1))

  unseen-nil :
      (core : List Trade) (local : List LocalTrade)
      → (unseen core local ≡ []) ↔ All (HeldRemotely core) local
  unfolding unseen
  unseen-nil core [] = ((λ h. tt), λ h. refl)
  unseen-nil core (lt ∷ m) = go (is_seen lt.trade_id lt.order_id core) refl (unseen-nil core m)
    where
      go :
          (b : Bool)
          → is_seen lt.trade_id lt.order_id core ≡ b
          → (unseen core m ≡ []) ↔ All (HeldRemotely core) m
          → ((if b then unseen core m else lt ∷ unseen core m) ≡ [])
            ↔ (HeldRemotely core lt × All (HeldRemotely core) m)
      go true e ih = ((λ h. ((is_seen-HeldRemotely core lt).0 e, ih.0 h)), λ h. ih.1 h.1)
      go false e ih = (
        (λ h. cc),
        λ h. let wrong : true ≡ false = sym ((is_seen-HeldRemotely core lt).1 h.0) ∙ e in cc,
      )

  -- If no two stored trades have the same two ids, as they are collected, a diff reports no divergence
  -- exactly if every trade of the Core has a stored one with its two ids and the same values, and every
  -- stored trade of the hour has one of the Core with its two ids. Trades that are not settled do not
  -- matter.
  pub diff_of-divergent :
      (day : Text) (hour : ℤ) (core : List Trade) (local : List LocalTrade)
      → DistinctIds local
      → (divergent (diff_of day hour core local) ≡ false)
        ↔ (All (HeldLocally local) core × All (HeldRemotely core) local)
  unfolding diff_of Clean
  diff_of-divergent day hour core local distinct =
      let (none_bad, all_good) = divergent-false (diff_of day hour core local) in
      let (clean, held) = inspect-Clean core local in
      let (stored, found) = AllFound-AllHeld local distinct core in
      let (seen, no_more) = unseen-nil core local in
      (
        (λ h. let (a, (b, c)) = none_bad h in (stored (clean (a, c)), seen b)),
        λ h. let (a, c) = held (found h.0) in all_good (a, (no_more h.1, c)),
      )
