-- ===== src/Order/Cancel.antt =====
-- `CancelOrder` of go/v1/order.go.

use fx_sdk.Order.Statements.{set_cancelled}
use fx_sdk.Errors.{
  Result, client_id_required, context, err, guard, ok, order_day_required, order_id_required,
  partner_id_required, ◌>>◌,
}
use fx_sdk.Platform.{Platform}
use fx_sdk.Common.{
  Option, Text, codes, eq_ℤ, if◌then◌else◌, is_empty, none, not, pos, some, to_int8, ◌&&◌,
}
use fx_sdk.Wire.{CancelOrderRequest, CancelOrderResponse, get_bool, get_int, get_text}
use fx_sdk.Types.{CancelOrderParams, CancelOrderResult}
use fx_sdk.Store.{Action, World, advance, cancel_sent, emit, exec, logged, raise}

unfoldable pub check_cancel : CancelOrderParams → Result CancelOrderRequest
check_cancel p = do
  guard (not (is_empty p.client_id)) client_id_required
  guard (not (is_empty p.partner_id)) partner_id_required
  guard (not (eq_ℤ p.order_id (pos 0))) order_id_required
  guard (not (is_empty p.order_day)) order_day_required
  ok (record {
    client_id = some p.client_id;
    order_id = some p.order_id;
    order_day = some p.order_day;
    partner_id = some p.partner_id;
  })

abbrev pub cancel_result : CancelOrderResponse → CancelOrderResult
cancel_result resp = record {
  success = get_bool resp.success;
  remaining_quantity = get_text resp.remaining_quantity;
  status = to_int8 (get_int resp.order_status);
  cause = get_text resp.cause;
  ref_id = get_int resp.ref_id;
}

module _ (x : Platform) where
  open x use {Decimal, Numeric}

  -- The Core's answer in the local row; an error of the statement is dropped.
  unfoldable pub apply_cancel :
      Text → CancelOrderResponse → World Numeric Decimal → World Numeric Decimal
  unfolding set_cancelled exec
  apply_cancel day resp w =
      if get_bool resp.success && not (eq_ℤ (get_int resp.ref_id) (pos 0))
      then logged x
          (exec x (
            set_cancelled x (to_int8 (get_int resp.order_status)) (get_text resp.cause)
              (get_text resp.remaining_quantity) day (get_int resp.ref_id)))
          w
      else w

  abbrev pub after_cancel :
      Text
      → Result CancelOrderResponse
      → World Numeric Decimal
      → Result CancelOrderResult × World Numeric Decimal
  after_cancel day (err e) w = (err (context (codes "cancel order") e), w)
  after_cancel day (ok resp) w = (ok (cancel_result resp), apply_cancel day resp w)

  abbrev pub cancel_with : Text → Result CancelOrderRequest → Action x CancelOrderResult
  cancel_with day (err e) w = (err e, w)
  cancel_with day (ok req) w =
      after_cancel day (x.cancel_order w.tick req) (emit (cancel_sent req) (advance w))

  -- `CancelOrder`
  unfoldable pub cancel_order : Option CancelOrderParams → Action x CancelOrderResult
  unfolding check_cancel apply_cancel
  cancel_order none = raise x client_id_required
  cancel_order (some p) = cancel_with p.order_day (check_cancel p)
