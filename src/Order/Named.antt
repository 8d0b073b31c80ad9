-- ===== src/Order/Named.antt =====
-- Which order a cancellation (go/v1/order.go) may write.

use mathlib.Core.Path.{subst}
use fx_sdk.Order.Statements.{set_cancelled, update_at_day, update_day, with_remaining}
use fx_sdk.Trade.Statements.{numeric_column}
use fx_sdk.Store.Rows.{find_order-update_order}
use fx_sdk.Store.Laws.{exec-db}
use fx_sdk.Order.Cancel.{after_cancel, apply_cancel, cancel_order, cancel_with, check_cancel}
use fx_sdk.Errors.{Result, err, ok}
use fx_sdk.Platform.{Platform}
use fx_sdk.Store.{Db, OrderRow, World, advance, cancel_sent, emit, exec, find_order, update_order}
use fx_sdk.Time.Date.{Date, eq_date, eq_date-eq}
use fx_sdk.Wire.{CancelOrderRequest, CancelOrderResponse, get_bool, get_int, get_text}
use fx_sdk.Types.{CancelOrderParams, OrderStatus}
use fx_sdk.Common.{
  Bool, Bool-cases, Option, Text, ap, arith, eq_ℤ, eq_ℤ_iff, false, if◌then◌else◌, inl, inr, none,
  not, pos, refl, some, to_int8, true, ℤ, ◌&&◌, ◌∙◌, ◌≡◌, ◌≢◌, ◌⊎◌,
}

module _ (x : Platform) where
  open x use {Decimal, Numeric, date_in}

  -- The order that the Core's answer to a cancellation names, and reports as cancelled.
  pub record Named (p : CancelOrderParams) (w : World Numeric Decimal) (day : Date) (ref : ℤ)
      : Type 0 where
    pub request : CancelOrderRequest
    pub response : CancelOrderResponse
    pub answered : x.cancel_order w.tick request ≡ ok response
    pub succeeded : get_bool response.success ≡ true
    pub ref_eq : get_int response.ref_id ≡ ref
    pub ref_given : ref ≢ pos 0
    pub day_eq : date_in p.order_day ≡ some day

  -- What a step leaves of every order but one that it may write.
  pub record Keeps (d d' : Db Numeric) (day : Date) (ref : ℤ) (May : Type 0) : Type 0 where
    pub trades_same : d'.trades ≡ d.trades
    pub recons_same : d'.recons ≡ d.recons
    pub order_same : (find_order day ref d'.orders ≡ find_order day ref d.orders) ⊎ May

  Keeps-refl :
      (d d' : Db Numeric) (day : Date) (ref : ℤ) (May : Type 0) → d' ≡ d → Keeps d d' day ref May
  Keeps-refl d d' day ref May h = record {
    trades_same = ap (λ (e : Db Numeric). e.trades) h;
    recons_same = ap (λ (e : Db Numeric). e.recons) h;
    order_same = inl (ap (λ (e : Db Numeric). find_order day ref e.orders) h);
  }

  update_day-Keeps :
      (at : Option Date) (key : ℤ) (f : OrderRow Numeric → OrderRow Numeric)
      (keeps : (o : OrderRow Numeric) → ((f o).order_day ≡ o.order_day) × ((f o).ref_id ≡ o.ref_id))
      (d d' : Db Numeric) (day : Date) (ref : ℤ)
      → update_day x at key f d ≡ some (tt, d')
      → Keeps d d' day ref ((at ≡ some day) × (key ≡ ref))
  update_day-Keeps none key f keeps d d' day ref h = cc
  update_day-Keeps (some at) key f keeps d d' day ref h =
      let eq : record d { orders = update_order at key f d.orders } ≡ d' = ground arith in
      subst (λ (e : Db Numeric). Keeps d e day ref ((some at ≡ some day) × (key ≡ ref))) eq
        (record {
          trades_same = refl;
          recons_same = refl;
          order_same = elim (Bool-cases (eq_date at day && eq_ℤ key ref)) [
            | inl h ↦ inr (ground (arith, eq_date-eq at day, eq_ℤ_iff key ref))
            | inr h ↦ inl (find_order-update_order at key f keeps day ref d.orders h)
          ];
        })

  set_cancelled-Keeps :
      (status : OrderStatus) (cause remaining text : Text) (key : ℤ) (d d' : Db Numeric)
      (day : Date) (ref : ℤ)
      → set_cancelled x status cause remaining text key d ≡ some (tt, d')
      → Keeps d d' day ref ((date_in text ≡ some day) × (key ≡ ref))
  unfolding set_cancelled
  set_cancelled-Keeps status cause remaining text key d d' day ref h =
      go (numeric_column x remaining) h
    where
      f : Numeric → OrderRow Numeric → OrderRow Numeric
      f n o = record o { status = status; cause = some cause; remaining_quantity = n }

      go :
          (n : Option Numeric)
          → with_remaining x (λ n. update_at_day x text key (f n)) n d ≡ some (tt, d')
          → Keeps d d' day ref ((date_in text ≡ some day) × (key ≡ ref))
      go none j = cc
      go (some n) j = update_day-Keeps (date_in text) key (f n) (λ o. (refl, refl)) d d' day ref j

  -- A cancellation writes at most one order: the one that the Core's answer names, with success, on the
  -- day of the request. Every other order, the trades and the reconciliations stay as they are, on
  -- every branch, also when the call or the statement fails.
  pub cancel_order-Keeps :
      (p : CancelOrderParams) (w : World Numeric Decimal) (day : Date) (ref : ℤ)
      → Keeps w.db (cancel_order x (some p) w).1.db day ref (Named p w day ref)
  unfolding cancel_order apply_cancel
  cancel_order-Keeps p w day ref = go (check_cancel p)
    where
      same : Keeps w.db w.db day ref (Named p w day ref)
      same = Keeps-refl w.db w.db day ref (Named p w day ref) refl

      written :
          (req : CancelOrderRequest) (resp : CancelOrderResponse) (v : World Numeric Decimal)
          → v.db ≡ w.db
          → x.cancel_order w.tick req ≡ ok resp
          → get_bool resp.success ≡ true
          → eq_ℤ (get_int resp.ref_id) (pos 0) ≡ false
          → Keeps w.db
              (exec x
                (set_cancelled x
                  (to_int8 (get_int resp.order_status))
                  (get_text resp.cause)
                  (get_text resp.remaining_quantity)
                  p.order_day
                  (get_int resp.ref_id))
                v).1.db
              day
              ref
              (Named p w day ref)
      written req resp v db answer success given =
          elim (exec-db x
            (set_cancelled x (to_int8 (get_int resp.order_status)) (get_text resp.cause)
              (get_text resp.remaining_quantity) p.order_day (get_int resp.ref_id))
            v) [
              | inl e ↦ Keeps-refl w.db _ day ref (Named p w day ref) (e ∙ db)
              | inr (tt, d, ran, e) ↦
                  let k =
                    set_cancelled-Keeps (to_int8 (get_int resp.order_status)) (get_text resp.cause)
                      (get_text resp.remaining_quantity) p.order_day (get_int resp.ref_id) v.db d
                      day ref ran in
                  record {
                    trades_same =
                        ap (λ (u : Db Numeric). u.trades) e
                        ∙ k.trades_same
                        ∙ ap (λ (u : Db Numeric). u.trades) db;
                    recons_same =
                        ap (λ (u : Db Numeric). u.recons) e
                        ∙ k.recons_same
                        ∙ ap (λ (u : Db Numeric). u.recons) db;
                    order_same = elim k.order_same [
                      | inl s ↦ inl (
                          ap (λ (u : Db Numeric). find_order day ref u.orders) e
                          ∙ s
                          ∙ ap (λ (u : Db Numeric). find_order day ref u.orders) db)
                      | inr (on, key) ↦ inr (record {
                        request = req;
                        response = resp;
                        answered = answer;
                        succeeded = success;
                        ref_eq = key;
                        ref_given =
                            λ z. absurd (ground (arith, eq_ℤ_iff (get_int resp.ref_id) (pos 0)));
                        day_eq = on;
                      })
                    ];
                  }
            ]

      applied :
          (req : CancelOrderRequest) (resp : CancelOrderResponse) (v : World Numeric Decimal)
          → v.db ≡ w.db
          → x.cancel_order w.tick req ≡ ok resp
          → (a b : Bool) → get_bool resp.success ≡ a
          → eq_ℤ (get_int resp.ref_id) (pos 0) ≡ b
          → Keeps w.db
              (if a && not b
                then (exec x
                    (set_cancelled x
                      (to_int8 (get_int resp.order_status))
                      (get_text resp.cause)
                      (get_text resp.remaining_quantity)
                      p.order_day
                      (get_int resp.ref_id))
                    v).1
                else v).db
              day
              ref
              (Named p w day ref)
      applied req resp v db answer true false success given =
          written req resp v db answer success given
      applied req resp v db answer true true success given =
          Keeps-refl w.db v.db day ref (Named p w day ref) db
      applied req resp v db answer false b success given =
          Keeps-refl w.db v.db day ref (Named p w day ref) db

      after :
          (req : CancelOrderRequest) (r : Result CancelOrderResponse)
          → x.cancel_order w.tick req ≡ r
          → Keeps w.db
              (after_cancel x p.order_day r (emit (cancel_sent req) (advance w))).1.db
              day
              ref
              (Named p w day ref)
      after req (err e) answer = same
      after req (ok resp) answer =
          applied req resp (emit (cancel_sent req) (advance w)) refl answer (get_bool resp.success)
            (eq_ℤ (get_int resp.ref_id) (pos 0)) refl refl

      go :
          (r : Result CancelOrderRequest)
          → Keeps w.db (cancel_with x p.order_day r w).1.db day ref (Named p w day ref)
      go (err e) = same
      go (ok req) = after req (x.cancel_order w.tick req) refl
