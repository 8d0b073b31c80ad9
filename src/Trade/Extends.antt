-- ===== src/Trade/Extends.antt =====
-- What every step of the trade flow keeps: no stored trade is lost or changed in its values, and the
-- flags `ack` and `settled` are never taken back.

use mathlib.Core.Path.{subst}
use fx_sdk.Trade.Delivery.{persist_trade-cases}
use fx_sdk.Trade.Persist.{persist_trade}
use fx_sdk.Store.Laws.{exec-db}
use fx_sdk.Trade.Statements.{
  event_key, fail_found, fail_with, failure_at, mark_ack, mark_settled_row, next_attempts,
  update_at, record_failure, fail_row,
}
use fx_sdk.Store.Rows.{UniqueKeys, find_trade-update_trade, map_found, update_trade-UniqueKeys}
use fx_sdk.Wire.{TradeResponse}
use fx_sdk.Types.{TradeEvent}
use fx_sdk.Platform.{Platform}
use fx_sdk.Trade.Settle.{Handler, after_handler, mark_settled, settle}
use fx_sdk.Store.{
  Db, TradeKey, TradeRow, World, advance, emit, eq_key, eq_key_iff, exec, find_trade, handled,
  update_trade,
}
use fx_sdk.Common.{
  Bool, List, Option, Text, ap, arith, false, if◌then◌else◌, inl, inr, none, refl, some, sym, true,
  ℕ, ◌∙◌, ◌∷◌, ◌≡◌,
}

module _ {N : Type 0} where
  -- A row and what may become of it: only the flags, and the record of its settlements, may change.
  pub record Kept (r s : TradeRow N) : Type 0 where
    pub key_same : s.key ≡ r.key
    pub executed_same : s.executed_at ≡ r.executed_at
    pub ref_same : s.ref_id ≡ r.ref_id
    pub side_same : s.side ≡ r.side
    pub type_same : s.trade_type ≡ r.trade_type
    pub partner_same : s.partner_id ≡ r.partner_id
    pub client_same : s.client_id ≡ r.client_id
    pub filled_same : s.filled_quantity ≡ r.filled_quantity
    pub rate_same : s.execution_rate ≡ r.execution_rate
    pub settlement_same : s.settlement ≡ r.settlement
    pub fee_same : s.fee ≡ r.fee
    pub ack_stays : r.ack ≡ true → s.ack ≡ true
    pub settled_stays : r.settled ≡ true → s.settled ≡ true

  pub Kept-refl : (r : TradeRow N) → Kept r r
  Kept-refl r = ground arith

  pub Kept-trans : {r s t : TradeRow N} → Kept r s → Kept s t → Kept r t
  Kept-trans h k = ground (arith, h.ack_stays, h.settled_stays, k.ack_stays, k.settled_stays)

  -- From one table to a later one.
  pub record Extends (a b : List (TradeRow N)) : Type 0 where
    pub unique : UniqueKeys a → UniqueKeys b
    pub stays :
        (k : TradeKey) (r : TradeRow N)
        → find_trade k a ≡ some r
        → (s : TradeRow N) × (find_trade k b ≡ some s) × Kept r s

  pub Extends-refl : (a : List (TradeRow N)) → Extends a a
  Extends-refl a = record { unique = λ u. u; stays = λ k r h. (r, h, Kept-refl r) }

  pub Extends-trans : {a b c : List (TradeRow N)} → Extends a b → Extends b c → Extends a c
  Extends-trans h k = record {
    unique = λ u. k.unique (h.unique u);
    stays = λ j r found.
        let (s, found_s, kept) = h.stays j r found in
        let (t, found_t, kept_t) = k.stays j s found_s in (t, found_t, Kept-trans kept kept_t);
  }

  pub Extends-eq : {a b : List (TradeRow N)} → b ≡ a → Extends a b
  Extends-eq {a} h = subst (Extends a) (sym h) (Extends-refl a)

  find_trade-cons :
      (k : TradeKey) (row r : TradeRow N) (a : List (TradeRow N))
      → find_trade row.key a ≡ none
      → find_trade k a ≡ some r
      → find_trade k (row ∷ a) ≡ some r
  unfolding find_trade
  find_trade-cons k row r a fresh found = ground (arith, eq_key_iff row.key k)

  pub Extends-insert :
      (row : TradeRow N) (a : List (TradeRow N)) → find_trade row.key a ≡ none → Extends a (row ∷ a)
  Extends-insert row a fresh = record {
    unique = λ u. (fresh, u);
    stays = λ k r found. (r, find_trade-cons k row r a fresh found, Kept-refl r);
  }

  pub Extends-update :
      (k : TradeKey) (f : TradeRow N → TradeRow N) (a : List (TradeRow N))
      → ((r : TradeRow N) → (f r).key ≡ r.key)
      → ((r : TradeRow N) → Kept r (f r))
      → Extends a (update_trade k f a)
  Extends-update k f a same kept = record {
    unique = update_trade-UniqueKeys f same k a;
    stays = λ j r found. go j r (eq_key k j) (find_trade-update_trade f same j k a) found;
  }
    where
      go :
          (j : TradeKey) (r : TradeRow N) (b : Bool)
          → find_trade j (update_trade k f a)
            ≡ (if b then map_found f (find_trade j a) else find_trade j a)
          → find_trade j a ≡ some r
          → (s : TradeRow N) × (find_trade j (update_trade k f a) ≡ some s) × Kept r s
      go j r true h found = (f r, h ∙ ap (map_found f) found, kept r)
      go j r false h found = (r, h ∙ found, Kept-refl r)

module _ (x : Platform) where
  open x use {Decimal, Numeric}

  pub persist_trade-Extends :
      (resp : TradeResponse) (w : World Numeric Decimal)
      → Extends w.db.trades (persist_trade x resp w).1.db.trades
  persist_trade-Extends resp w = elim (persist_trade-cases x resp w) [
    | inl (e, _, same) ↦ Extends-eq (ap (λ (d : Db Numeric). d.trades) same)
    | inr (p, ev, ek, (_, inl (_, _, s)), _) ↦
        rw s.trades_eq (Extends-insert s.row w.db.trades s.fresh)
    | inr (p, ev, ek, (_, inr (_, _, same)), _) ↦
        Extends-eq (ap (λ (d : Db Numeric). d.trades) same)
  ]

  -- A statement whose effect extends the table does so however its call ends.
  pub exec-Extends :
      {A : Type 0} (s : Db Numeric → Option (A × Db Numeric)) (w : World Numeric Decimal)
      → ((a : A) (d : Db Numeric) → s w.db ≡ some (a, d) → Extends w.db.trades d.trades)
      → Extends w.db.trades (exec x s w).1.db.trades
  exec-Extends s w h = elim (exec-db x s w) [
    | inl same ↦ Extends-eq (ap (λ (d : Db Numeric). d.trades) same)
    | inr (a, d, ran, at) ↦ rw at (h a d ran)
  ]

  pub update_at-Extends :
      (k : Option TradeKey) (f : TradeRow Numeric → TradeRow Numeric) (d d' : Db Numeric)
      → ((r : TradeRow Numeric) → (f r).key ≡ r.key)
      → ((r : TradeRow Numeric) → Kept r (f r))
      → update_at x k f d ≡ some (tt, d')
      → Extends d.trades d'.trades
  unfolding update_at
  update_at-Extends none f d d' same kept h = cc
  update_at-Extends (some k) f d d' same kept h =
      let at : d' ≡ record d { trades = update_trade k f d.trades } = cc in
      rw at (Extends-update k f d.trades same kept)

  pub mark_ack-Extends :
      (e : TradeEvent Decimal) (w : World Numeric Decimal)
      → Extends w.db.trades (exec x (mark_ack x e) w).1.db.trades
  unfolding mark_ack
  mark_ack-Extends e w = exec-Extends (mark_ack x e) w λ a d h.
      update_at-Extends (event_key x e) (λ r. record r { ack = true }) w.db d (λ r. refl)
        (λ r. ground arith) h

  pub mark_settled-Extends :
      (e : TradeEvent Decimal) (w : World Numeric Decimal)
      → Extends w.db.trades (mark_settled x e w).db.trades
  unfolding mark_settled mark_settled_row
  mark_settled-Extends e w = exec-Extends (mark_settled_row x e) w λ a d h.
      update_at-Extends (event_key x e) (λ r. record r { settled = true; settle_error = none }) w.db
        d (λ r. refl) (λ r. ground arith) h

  pub failure_at-Extends :
      (k : Option TradeKey) (why : Text) (d d' : Db Numeric)
      → failure_at x k why d ≡ some (tt, d')
      → Extends d.trades d'.trades
  unfolding failure_at
  failure_at-Extends none why d d' h = cc
  failure_at-Extends (some k) why d d' h = go (find_trade k d.trades) h
    where
      last : (n : Option ℕ) → fail_with x k why d n ≡ some (tt, d') → Extends d.trades d'.trades
      last none j = cc
      last (some n) j =
          update_at-Extends (some k) (fail_row x why n) d d' (λ r. refl) (λ r. ground arith) j

      go :
          (f : Option (TradeRow Numeric))
          → fail_found x k why d f ≡ some (tt, d')
          → Extends d.trades d'.trades
      go none j = let same : d' ≡ d = cc in Extends-eq (ap (λ (v : Db Numeric). v.trades) same)
      go (some r) j = last (next_attempts r.settle_attempts) j

  pub record_failure-Extends :
      (e : TradeEvent Decimal) (why : Text) (w : World Numeric Decimal)
      → Extends w.db.trades (exec x (record_failure x e why) w).1.db.trades
  unfolding record_failure
  record_failure-Extends e why w =
      exec-Extends (record_failure x e why) w
        λ a d j. failure_at-Extends (event_key x e) why w.db d j

  pub settle-Extends :
      (handler : Option (Handler Decimal)) (e : TradeEvent Decimal) (w : World Numeric Decimal)
      → Extends w.db.trades (settle x handler e w).1.db.trades
  unfolding settle
  settle-Extends none e w = mark_settled-Extends e w
  settle-Extends (some h) e w = go (h w.tick e) (emit (handled e) (advance w))
    where
      go :
          (o : Option Text) (w1 : World Numeric Decimal)
          → Extends w1.db.trades (after_handler x e o w1).1.db.trades
      go none w1 = mark_settled-Extends e w1
      go (some why) w1 = record_failure-Extends e why w1
