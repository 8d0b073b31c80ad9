-- ===== src/Trade/Once.antt =====
-- A trade is stored once: a successful run leaves the trade stored, and the same message a second time
-- changes nothing.
use fx_sdk.Trade.Unsettled.{unsettled}
use fx_sdk.Trade.Statements.{event_key}
use mathlib.Core.Path.{subst}
use fx_sdk.Types.{failed}
use fx_sdk.Trade.Delivery.{
  persist_trade-cases, response_key, persist_trade-redelivery, new_row-unsettled, stored-key,
  ReportsStored,
}
use fx_sdk.Errors.{ok, ok-injective}
use fx_sdk.Trade.Persist.{Persisted, persist_trade}
use fx_sdk.Wire.{TradeResponse}
use fx_sdk.Store.{TradeKey, find_trade, TradeRow, World, eq_key_iff}
use fx_sdk.Platform.{Platform}
use fx_sdk.Common.{refl, List, ◌≡◌, ◌∷◌, some, ◌∙◌, ap, inl, inr, sym}

module _ (x : Platform) where
  open x use {Decimal, Numeric}

  found_first :
      (k : TradeKey) (r : TradeRow Numeric) (rs : List (TradeRow Numeric))
      → r.key ≡ k
      → find_trade k (r ∷ rs) ≡ some r
  unfolding find_trade
  found_first k r rs h = rw ((eq_key_iff r.key k).1 h) refl

  -- A run that succeeds leaves the trade of the message stored, with the settled flag that it reports.
  pub persist_trade-stored :
      (resp : TradeResponse) (w : World Numeric Decimal) {p : Persisted x}
      → (persist_trade x resp w).0 ≡ ok p
      → (k : TradeKey) × (row : TradeRow Numeric) × (response_key x resp ≡ some k)
        × (find_trade k (persist_trade x resp w).1.db.trades ≡ some row)
        × (row.settled ≡ p.settled)
  persist_trade-stored resp w {p} h = elim (persist_trade-cases x resp w) [
    | inl (e, failed, _) ↦ cc
    | inr (q, ev, ek, (pe, inl (_, unsettled, s)), inl answer) ↦ (
      s.row.key,
      s.row,
      stored-key x resp ev ek s,
      rw s.trades_eq (found_first s.row.key s.row w.db.trades refl),
      (new_row-unsettled x ev _ _ _ s.row_eq).0
          ∙ sym unsettled
          ∙ ap (λ (t : Persisted x). t.settled) (ok-injective (sym answer ∙ h)),
    )
    | inr (q, ev, ek, (pe, inr (_, old, same)), inl answer) ↦ (
      old.key,
      old.row,
      sym ek ∙ old.key_eq,
      rw same old.row_eq,
      old.settled_eq ∙ ap (λ (t : Persisted x). t.settled) (ok-injective (sym answer ∙ h)),
    )
    | inr (q, ev, ek, _, inr (e, failed)) ↦ cc
  ]

  -- The event that a run returns has the key of its message.
  pub persist_trade-key :
      (resp : TradeResponse) (w : World Numeric Decimal) {p : Persisted x}
      → (persist_trade x resp w).0 ≡ ok p
      → event_key x p.event ≡ response_key x resp
  persist_trade-key resp w {p} h = elim (persist_trade-cases x resp w) [
    | inl (e, failed, _) ↦ cc
    | inr (q, ev, ek, (pe, _), inl answer) ↦
        ap (λ (r : Persisted x). event_key x r.event) (ok-injective (sym h ∙ answer))
        ∙ ap (event_key x) pe
        ∙ ek
    | inr (q, ev, ek, _, inr (e, failed)) ↦ cc
  ]

  -- Idempotence: after a run that succeeded, the same message again changes nothing in the database,
  -- whatever happens to the second run; and if that succeeds too, it has inserted nothing and reports
  -- the same settled flag.
  pub persist_trade-idempotent :
      (resp : TradeResponse) (w : World Numeric Decimal) {p : Persisted x}
      → (persist_trade x resp w).0 ≡ ok p
      → ((persist_trade x resp (persist_trade x resp w).1).1.db ≡ (persist_trade x resp w).1.db)
        × ReportsStored x p.settled (persist_trade x resp (persist_trade x resp w).1).0
  persist_trade-idempotent resp w {p} h =
      let (k, row, key, found, flag) = persist_trade-stored resp w h in
      let (same, again) = persist_trade-redelivery x resp (persist_trade x resp w).1 key found in
      (
        same,
        subst (λ b. ReportsStored x b (persist_trade x resp (persist_trade x resp w).1).0) flag
            again,
      )
