-- ===== src/Trade/Delivery.antt =====
-- `persist_trade` as a whole, for every outcome of its calls: atomicity, redelivery, idempotence, and
-- the primary key of `client_trades`.

use mathlib.Core.Path.{subst}
use fx_sdk.Trade.Storage.{PersistedAs, StoredBy, store_trade-ok, AlreadyStored}
use fx_sdk.Store.Laws.{transaction-cases}
use fx_sdk.Time.Zone.{Stamp}
use fx_sdk.Errors.{Result, ok, Error, err}
use fx_sdk.Money.{cal}
use fx_sdk.Store.{World, query, TradeKey, transaction, TradeRow, Db, find_trade, advance}
use fx_sdk.Types.{TradeEvent, failed}
use fx_sdk.Trade.Statements.{new_row, ParentOrder, event_key}
use fx_sdk.Trade.Persist.{
  joined, lookup_step, persist_trade, Persisted, event_of, store_trade, after_lookup,
}
use fx_sdk.Wire.{TradeResponse}
use fx_sdk.Platform.{Platform}
use fx_sdk.Common.{
  inl, inr, refl, Option, ℤ, ◌≡◌, arith, some, false, inl, ◌⊎◌, none, sym, Bool, ◌∙◌, ap,
  some-injective,
}

module _ (x : Platform) where
  open x use {Decimal, Numeric, date_in}

  -- The key that the message names.
  abbrev pub response_key : TradeResponse → Option TradeKey
  response_key resp = event_key x (event_of x resp)

  joined-key :
      (resp : TradeResponse) (parent : ParentOrder) {e : TradeEvent Decimal}
      → joined x resp parent ≡ ok e
      → event_key x e ≡ response_key resp
  unfolding joined cal
  joined-key resp parent h = ground arith

  pub new_row-key :
      (e : TradeEvent Decimal) (ref : ℤ) (at : Option Stamp) (now : Stamp) {r : TradeRow Numeric}
      → new_row x e ref at now ≡ some r
      → event_key x e ≡ some r.key
  unfolding new_row
  new_row-key e ref at now h = ground arith

  pub new_row-unsettled :
      (e : TradeEvent Decimal) (ref : ℤ) (at : Option Stamp) (now : Stamp) {r : TradeRow Numeric}
      → new_row x e ref at now ≡ some r
      → (r.settled ≡ false) × (r.ack ≡ false)
  unfolding new_row
  new_row-unsettled e ref at now h = ground arith

  -- What a run leaves: an error and the database as it was; or the work of a successful body, which is
  -- reported unless the answer to the commit was lost.
  abbrev pub PersistCases :
      TradeResponse → Db Numeric → Result (Persisted x) × World Numeric Decimal → Type 0
  PersistCases resp d r =
      ((e : Error) × (r.0 ≡ err e) × (r.1.db ≡ d))
      ⊎ ((p : Persisted x) × (ev : TradeEvent Decimal) × (event_key x ev ≡ response_key resp)
          × PersistedAs x resp ev p d r.1.db
          × ((r.0 ≡ ok p) ⊎ ((e : Error) × (r.0 ≡ err e))))

  lookup_step-db :
      (resp : TradeResponse) (w : World Numeric Decimal) → (lookup_step x resp w).1.db ≡ w.db
  unfolding lookup_step query
  lookup_step-db resp w = ground arith

  store-cases :
      (resp : TradeResponse) (ev : TradeEvent Decimal) (w : World Numeric Decimal)
      → event_key x ev ≡ response_key resp
      → PersistCases resp w.db (transaction x (store_trade x resp ev) w)
  store-cases resp ev w key = elim (transaction-cases x (store_trade x resp ev) w) [
    | inl failed ↦ inl failed
    | inr (p, w2, ran, at, answer) ↦ inr (
      p,
      ev,
      key,
      subst (PersistedAs x resp ev p w.db) (sym at) (store_trade-ok x resp ev (advance w) ran),
      answer,
    )
  ]

  -- Atomicity: a run returns an error and leaves the database as it was, or its transaction has taken
  -- effect as a whole, as the storage of a new trade or as nothing for one that was stored already; the
  -- result is then reported, unless the answer to the commit was lost.
  pub persist_trade-cases :
      (resp : TradeResponse) (w : World Numeric Decimal)
      → PersistCases resp w.db (persist_trade x resp w)
  unfolding persist_trade
  persist_trade-cases resp w = go (lookup_step x resp w) (lookup_step-db resp w)
    where
      last :
          (parent : ParentOrder) (w1 : World Numeric Decimal)
          → w1.db ≡ w.db
          → (j : Result (TradeEvent Decimal)) → joined x resp parent ≡ j
          → PersistCases resp w.db
              (elim j [ ok e ↦ transaction x (store_trade x resp e) w1 | err e ↦ (err e, w1) ])
      last parent w1 same (err e) h = inl (e, refl, same)
      last parent w1 same (ok e) h =
          subst (λ d. PersistCases resp d (transaction x (store_trade x resp e) w1)) same
            (store-cases resp e w1 (joined-key resp parent h))

      go :
          (r : Result ParentOrder × World Numeric Decimal)
          → r.1.db ≡ w.db
          → PersistCases resp w.db
              (elim r.0 [ ok parent ↦ after_lookup x resp parent r.1 | err e ↦ (err e, r.1) ])
      go (err e, w1) same = inl (e, refl, same)
      go (ok parent, w1) same = last parent w1 same (joined x resp parent) refl

  -- The row that a first delivery adds has the key of the message.
  pub stored-key :
      (resp : TradeResponse) (ev : TradeEvent Decimal) {d d' : Db Numeric}
      → event_key x ev ≡ response_key resp
      → (s : StoredBy x resp ev d d') → response_key resp ≡ some s.row.key
  stored-key resp ev key s = sym key ∙ new_row-key ev _ _ _ s.row_eq

  -- The stored row is the one that the message names.
  same_row :
      (resp : TradeResponse) (ev : TradeEvent Decimal) (d : Db Numeric) {s : Bool} {k : TradeKey}
      {row : TradeRow Numeric}
      → event_key x ev ≡ response_key resp
      → response_key resp ≡ some k
      → find_trade k d.trades ≡ some row
      → AlreadyStored x ev s d
      → s ≡ row.settled
  same_row resp ev d {s} {k} {row} ek key found old =
      let same : k ≡ old.key = some-injective (sym key ∙ sym ek ∙ old.key_eq) in
      let rows : row ≡ old.row =
        some-injective
          (sym found ∙ ap (λ (j : TradeKey). find_trade j d.trades) same ∙ old.row_eq) in
      sym old.settled_eq ∙ ap (λ (r : TradeRow Numeric). r.settled) (sym rows)

  -- What a run reports of a trade that is stored already: an error, or that nothing was inserted and
  -- the settled flag `s`.
  abbrev pub ReportsStored : Bool → Result (Persisted x) → Type 0
  ReportsStored s (ok p) = (p.inserted ≡ false) × (p.settled ≡ s)
  ReportsStored s (err e) = Unit

  -- An answered run returns what its body returned.
  reported :
      (p : Persisted x) {s : Bool} (r : Result (Persisted x))
      → p.inserted ≡ false
      → p.settled ≡ s
      → (r ≡ ok p) ⊎ ((e : Error) × (r ≡ err e))
      → ReportsStored s r
  reported p {s} r pi ps (inl answer) = subst (ReportsStored s) (sym answer) (pi, ps)
  reported p {s} r pi ps (inr (e, failed)) = subst (ReportsStored s) (sym failed) tt

  -- Redelivery: if the trade of the message is stored already, then a run leaves the whole database as
  -- it was, whatever the outcomes of its calls; and if it succeeds, it reports that it inserted nothing
  -- and the settled flag of the stored row.
  pub persist_trade-redelivery :
      (resp : TradeResponse) (w : World Numeric Decimal) {k : TradeKey} {row : TradeRow Numeric}
      → response_key resp ≡ some k
      → find_trade k w.db.trades ≡ some row
      → ((persist_trade x resp w).1.db ≡ w.db)
        × ReportsStored row.settled (persist_trade x resp w).0
  persist_trade-redelivery resp w {k} {row} key found = elim (persist_trade-cases resp w) [
    | inl (e, failed, same) ↦ (same, subst (ReportsStored row.settled) (sym failed) tt)
    | inr (p, ev, ek, (pe, inl (_, _, s)), _) ↦
        let same : k ≡ s.row.key = some-injective (sym key ∙ stored-key resp ev ek s) in
        let again : find_trade k w.db.trades ≡ none = rw same s.fresh in cc
    | inr (p, ev, ek, (pe, inr (ins, old, same)), answer) ↦ (
      same,
      reported p (persist_trade x resp w).0 ins (same_row resp ev w.db ek key found old) answer,
    )
  ]
