-- ===== src/Trade/Untouched.antt =====
-- What a retry of a settlement (go/v1/trade.go) leaves as it is: the orders, and the key of the trade.

use fx_sdk.Store.Laws.{exec-db, query-world}
use fx_sdk.Money.{cal, percentage}
use fx_sdk.Trade.Unsettled.{after_parent, find_ref, retry_one, settle_event, stored_event}
use fx_sdk.Types.{TradeEvent}
use fx_sdk.Errors.{Result, err, ok}
use fx_sdk.Platform.{Platform}
use fx_sdk.Trade.Statements.{
  ParentOrder, event_key, fail_found, fail_with, failure_at, mark_settled_row, scan_parent,
  update_at, record_failure,
}
use fx_sdk.Trade.Settle.{Handler, after_handler, mark_settled, settle}
use fx_sdk.Store.{Db, TradeKey, TradeRow, World, advance, emit, exec, handled, query}
use fx_sdk.Common.{Option, Text, ap, arith, inl, inr, none, refl, some, true, ◌∙◌, ◌≡◌}

module _ (x : Platform) where
  open x use {Decimal, Numeric}

  -- No statement of a settlement writes to the orders.
  exec-orders :
      {A : Type 0} (s : Db Numeric → Option (A × Db Numeric)) (w : World Numeric Decimal)
      → ((a : A) (d : Db Numeric) → s w.db ≡ some (a, d) → d.orders ≡ w.db.orders)
      → (exec x s w).1.db.orders ≡ w.db.orders
  exec-orders s w h = elim (exec-db x s w) [
    | inl same ↦ ap (λ (d : Db Numeric). d.orders) same
    | inr (a, d, ran, at) ↦ rw at (h a d ran)
  ]

  update_at-orders :
      (k : Option TradeKey) (f : TradeRow Numeric → TradeRow Numeric) (d d' : Db Numeric)
      (u : Unit {0})
      → update_at x k f d ≡ some (u, d')
      → d'.orders ≡ d.orders
  unfolding update_at
  update_at-orders k f d d' u h = ground arith

  failure_at-orders :
      (k : Option TradeKey) (why : Text) (d d' : Db Numeric) (u : Unit {0})
      → failure_at x k why d ≡ some (u, d')
      → d'.orders ≡ d.orders
  unfolding failure_at fail_found fail_with update_at
  failure_at-orders k why d d' u h = ground arith

  settle-orders :
      (handler : Handler Decimal) (e : TradeEvent Decimal) (w : World Numeric Decimal)
      → (settle x (some handler) e w).1.db.orders ≡ w.db.orders
  unfolding settle after_handler mark_settled mark_settled_row record_failure
  settle-orders handler e w = go (handler w.tick e)
    where
      w1 : World Numeric Decimal
      w1 = emit (handled e) (advance w)

      go : (o : Option Text) → (after_handler x e o w1).1.db.orders ≡ w1.db.orders
      go none = exec-orders (mark_settled_row x e) w1 λ u d h.
          update_at-orders (event_key x e) (λ r. record r { settled = true; settle_error = none })
            w1.db d u h
      go (some why) =
          exec-orders (record_failure x e why) w1
            λ u d h. failure_at-orders (event_key x e) why w1.db d u h

  pub retry_one-orders :
      (handler : Handler Decimal) (r : TradeRow Numeric) (w : World Numeric Decimal)
      → (retry_one x handler r w).db.orders ≡ w.db.orders
  unfolding retry_one
  retry_one-orders handler r w =
      let q = λ (d : Db Numeric). scan_parent (find_ref x r.ref_id d.orders) in
      parent (query x q w) ∙ ap (λ (v : World Numeric Decimal). v.db.orders) (query-world x q w)
    where
      computed :
          (c : Result (TradeEvent Decimal)) (v : World Numeric Decimal)
          → (settle_event x handler c v).db.orders ≡ v.db.orders
      computed (err e) v = refl
      computed (ok e) v = settle-orders handler e v

      parent :
          (p : Result ParentOrder × World Numeric Decimal)
          → (after_parent x handler r p).db.orders ≡ p.1.db.orders
      parent (err e, v) = refl
      parent (ok o, v) = computed (cal x (stored_event x r o)) v

  -- The calculation leaves the key of the trade.
  pub cal-event_key : (e e' : TradeEvent Decimal) → cal x e ≡ ok e' → event_key x e' ≡ event_key x e
  unfolding cal percentage
  cal-event_key e e' h = ground arith
