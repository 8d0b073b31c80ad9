-- ===== src/Client/Orders.antt =====
-- `SubmitOrder` grows the database and sends only what is backed by it.

use fx_sdk.Client.Updates.{set_order_id-Steady, set_outcome-Steady}
use fx_sdk.Client.Inserts.{insert_order_step-NamesOrder, insert_order_step-Steady}
use fx_sdk.Order.Submit.{
  after_order_insert, after_probe, insert_order_step, probe_step, reflect, request_of, send_step,
  submit_checked, submit_order, submit_with, with_cause, after_submit, submit_result,
}
use fx_sdk.Order.Statements.{find_repeat, set_order_id, set_outcome}
use fx_sdk.Platform.{Platform}
use fx_sdk.Client.Later.{
  Follows, Follows-emit, Follows-refl, Follows-trans, NamesOrder, Steady, Steady-annotate,
  Steady-bind, Steady-query,
}
use fx_sdk.Errors.{Result, err, ok, wrap}
use fx_sdk.Store.{World, advance, emit, exec, submitted}
use fx_sdk.Order.Check.{Checked, check_order}
use fx_sdk.Wire.{SubmitOrderResponse, get_text}
use fx_sdk.Types.{SubmitOrderParams, SubmitOrderResult, duplicate, pending, unknown}
use fx_sdk.Common.{
  Bool, Option, Text, codes, eq_ℤ, false, if◌then◌else◌, none, pos, refl, some, true, ℤ, ◌||◌, ◌≡◌,
}

module _ (x : Platform) where
  open x use {Decimal, Numeric, date_in, now}

  reflect-Steady :
      (resp : SubmitOrderResponse) (r : SubmitOrderResult) → Steady x (reflect x resp r)
  unfolding reflect
  reflect-Steady resp r = record {
    follows = λ w.
        go w (eq_ℤ r.status duplicate || eq_ℤ r.status unknown) (eq_ℤ r.status pending)
          (eq_ℤ r.order_id (pos 0));
  }
    where
      go :
          (w : World Numeric Decimal) (a b c : Bool)
          → Follows x w
              (if◌then◌else◌ {A = Result SubmitOrderResult × World Numeric Decimal} a
                (ok r, w)
                (if b
                  then (if c then (ok r, w) else (
                    ok (with_cause x resp r),
                    (exec x (set_order_id x r.order_id r.order_day r.ref_id) w).1,
                  ))
                  else (
                    ok (with_cause x resp r),
                    (exec x
                        (set_outcome x r.status
                          (get_text resp.cause)
                          r.order_id
                          r.order_day
                          r.ref_id)
                        w).1,
                  ))).1
      go w true b c = Follows-refl x w
      go w false true true = Follows-refl x w
      go w false true false = (set_order_id-Steady x r.order_id r.order_day r.ref_id).follows w
      go w false false c =
          (set_outcome-Steady x r.status (get_text resp.cause) r.order_id r.order_day
              r.ref_id).follows
            w

  pub after_order_insert-Follows :
      (p : SubmitOrderParams) (c : Checked) (key : ℤ × Text) (w : World Numeric Decimal)
      → NamesOrder x w.db.orders (request_of x p c key)
      → Follows x w (after_order_insert x p c key w).1
  unfolding after_order_insert send_step
  after_order_insert-Follows p c key w named =
      go (wrap (codes "submit order") (x.submit_order w.tick (request_of x p c key)))
    where
      w1 : World Numeric Decimal
      w1 = emit (submitted (request_of x p c key)) (advance w)

      go :
          (r : Result SubmitOrderResponse)
          → Follows x w
              (elim r as (λ _. Result SubmitOrderResult × World Numeric Decimal) [
                | ok resp ↦ after_submit x key resp w1
                | err e ↦ (err e, w1)
              ]).1
      go (ok resp) =
          Follows-trans x (Follows-emit x (submitted (request_of x p c key)) w named)
            ((reflect-Steady resp (submit_result x key resp)).follows w1)
      go (err e) = Follows-emit x (submitted (request_of x p c key)) w named

  after_probe-Steady :
      (p : SubmitOrderParams) (c : Checked) (b : Bool) → Steady x (after_probe x p c b)
  unfolding after_probe
  after_probe-Steady p c true = record { follows = λ w. Follows-refl x w }
  after_probe-Steady p c false = record {
    follows =
        λ w. go w (insert_order_step x p c w) refl ((insert_order_step-Steady x p c).follows w);
  }
    where
      go :
          (w : World Numeric Decimal) (r : Result (ℤ × Text) × World Numeric Decimal)
          → insert_order_step x p c w ≡ r
          → Follows x w r.1
          → Follows x w
              (elim r.0 as (λ _. Result SubmitOrderResult × World Numeric Decimal) [
                | ok key ↦ after_order_insert x p c key r.1
                | err e ↦ (err e, r.1)
              ]).1
      go w (ok key, w1) h f =
          Follows-trans x f
            (after_order_insert-Follows p c key w1 (insert_order_step-NamesOrder x p c w h))
      go w (err e, w1) h f = f

  submit_checked-Steady : (p : SubmitOrderParams) (c : Checked) → Steady x (submit_checked x p c)
  unfolding submit_checked probe_step
  submit_checked-Steady p c =
      Steady-bind x (probe_step x p c) (after_probe x p c)
        (record {
          follows = λ w.
              (Steady-annotate x (codes "check for a duplicate") _
                  (Steady-query x (find_repeat x p c (now w.tick)))).follows
                w;
        })
        (after_probe-Steady p c)

  pub submit_order-Follows :
      (p : Option SubmitOrderParams) (w : World Numeric Decimal)
      → Follows x w (submit_order x p w).1
  unfolding submit_order
  submit_order-Follows none w = Follows-refl x w
  submit_order-Follows (some p) w = go (check_order x p)
    where
      go : (r : Result Checked) → Follows x w (submit_with x p r w).1
      go (ok c) = (submit_checked-Steady p c).follows w
      go (err e) = Follows-refl x w
