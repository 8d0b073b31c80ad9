-- ===== src/Client/Inserts.antt =====
-- The insert of an order leaves the order that the request to the Core names.

use fx_sdk.Order.Submit.{insert_order_step, request_of}
use mathlib.Core.Path.{subst}
use fx_sdk.Order.Statements.{insert_order}
use fx_sdk.Store.Laws.{annotate-ok, exec-ok}
use fx_sdk.Time.Zone.{Stamp}
use fx_sdk.Platform.{Platform}
use fx_sdk.Order.Terms.{OrdersKept, OrdersKept-insert}
use fx_sdk.Order.Inserted.{Inserted, insert_order-Inserted}
use fx_sdk.Client.Later.{Later, Later-orders, NamesOrder, Steady, Steady-annotate, Steady-exec}
use fx_sdk.Errors.{ok}
use fx_sdk.Store.{Db, OrderRow, World, exec, find_order}
use fx_sdk.Time.Date.{eq_date_refl}
use fx_sdk.Order.Check.{Checked}
use fx_sdk.Types.{SubmitOrderParams}
use fx_sdk.Common.{List, Text, ap, arith, codes, eq_ℤ_refl, some, sym, ℤ, ◌∷◌, ◌≡◌}

module _ (x : Platform) where
  open x use {Decimal, Numeric, date_in, now}

  Inserted-Later :
      (p : SubmitOrderParams) (c : Checked) (at : Stamp) (d : Db Numeric) {key : ℤ × Text}
      {d' : Db Numeric}
      → Inserted x p c at d key d'
      → Later d d'
  Inserted-Later p c at d {key} {d'} i =
      Later-orders d d'
        (subst (OrdersKept d.orders) (sym i.orders_eq) (OrdersKept-insert i.row d.orders i.fresh))
        i.trades_eq i.recons_eq

  pub found_first :
      (o : OrderRow Numeric) (os : List (OrderRow Numeric))
      → find_order o.order_day o.ref_id (o ∷ os) ≡ some o
  unfolding find_order
  found_first o os = ground (arith, eq_date_refl o.order_day, eq_ℤ_refl o.ref_id)

  pub Inserted-NamesOrder :
      (p : SubmitOrderParams) (c : Checked) (at : Stamp) (d : Db Numeric) {key : ℤ × Text}
      {d' : Db Numeric}
      → Inserted x p c at d key d'
      → NamesOrder x d'.orders (request_of x p c key)
  Inserted-NamesOrder p c at d i =
      let o = i.row in
      record {
        day = o.order_day;
        ref = o.ref_id;
        order = o;
        found = rw i.orders_eq (found_first o d.orders);
        ref_eq = ap (λ (k : ℤ × Text). some k.0) i.key_eq;
        day_eq = ap (λ (k : ℤ × Text). some k.1) i.key_eq;
        side_eq = ap some (sym i.row_of.side_eq);
        segment_eq = ap some (sym i.row_of.segment_eq);
        type_eq = ap some (sym i.row_of.type_eq);
        counterparty_eq = ap some (sym i.row_of.counterparty_eq);
        pair_eq = ap some (sym i.row_of.pair_eq);
        partner_eq = ap some (sym i.row_of.partner_eq);
        client_eq = ap some (sym i.row_of.client_eq);
        inn_eq = ap some (sym i.row_of.inn_eq);
      }

  pub insert_order_step-Steady :
      (p : SubmitOrderParams) (c : Checked) → Steady x (insert_order_step x p c)
  unfolding insert_order_step
  insert_order_step-Steady p c = record {
    follows = λ w.
        (Steady-annotate x (codes "insert order") _ (
            Steady-exec x (insert_order x p c (now w.tick)) λ d key d' ran.
              Inserted-Later p c (now w.tick) d
                (insert_order-Inserted x p c (now w.tick) d ran))).follows
          w;
  }

  -- An insert that is answered has left the row that the request names.
  pub insert_order_step-NamesOrder :
      (p : SubmitOrderParams) (c : Checked) (w : World Numeric Decimal) {key : ℤ × Text}
      {w1 : World Numeric Decimal}
      → insert_order_step x p c w ≡ (ok key, w1)
      → NamesOrder x w1.db.orders (request_of x p c key)
  unfolding insert_order_step
  insert_order_step-NamesOrder p c w {key} {w1} h =
      let s = insert_order x p c (now w.tick) in
      let (d, ran, at) = exec-ok x s w (annotate-ok x (codes "insert order") (exec x s) w h) in
      let same : w1.db ≡ d = ap (λ (v : World Numeric Decimal). v.db) at in
      subst (λ (v : Db Numeric). NamesOrder x v.orders (request_of x p c key)) (sym same)
        (Inserted-NamesOrder p c (now w.tick) w.db
          (insert_order-Inserted x p c (now w.tick) w.db ran))
