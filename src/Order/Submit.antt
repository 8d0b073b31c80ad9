-- ===== src/Order/Submit.antt =====
-- `SubmitOrder` of go/v1/order.go: the checks, the probe for a duplicate, the insert, the request to
-- the Core, and its answer written back. The error of the probe, which the source words in Russian, is
-- worded in English.

use fx_sdk.Order.Statements.{find_repeat, insert_order, set_order_id, set_outcome}
use fx_sdk.Wire.{SubmitOrderRequest, SubmitOrderResponse, get_int, get_text}
use fx_sdk.Types.{SubmitOrderParams, SubmitOrderResult, duplicate, pending, unknown}
use fx_sdk.Errors.{Result, client_id_required, duplicate_order, err, ok, wrap}
use fx_sdk.Platform.{Platform}
use fx_sdk.Order.Check.{Checked, check_order}
use fx_sdk.Common.{
  Bool, Option, Text, [], codes, eq_ℤ, false, if◌then◌else◌, none, pos, some, to_int8, true, ℤ,
  ◌||◌,
}
use fx_sdk.Store.{Action, advance, annotate, emit, exec, logged, query, raise, submitted, ◌>>=◌}

module _ (x : Platform) where
  open x use {Decimal, Numeric, now}

  unfoldable pub probe_step : SubmitOrderParams → Checked → Action x Bool
  unfolding find_repeat query
  probe_step p c w =
      annotate x (codes "check for a duplicate") (query x (find_repeat x p c (now w.tick))) w

  unfoldable pub insert_order_step : SubmitOrderParams → Checked → Action x (ℤ × Text)
  unfolding insert_order exec
  insert_order_step p c w =
      annotate x (codes "insert order") (exec x (insert_order x p c (now w.tick))) w

  abbrev pub request_of : SubmitOrderParams → Checked → ℤ × Text → SubmitOrderRequest
  request_of p c (ref, day) = record {
    ref_id = some ref;
    side = some p.side;
    segment = some p.segment;
    client_id = some p.client_id;
    client_inn = some p.client_inn;
    currency_pair = some p.currency_pair;
    quantity = some p.quantity;
    limit_rate = c.limit_rate;
    order_day = some day;
    min_trade_quantity = c.min_trade_quantity;
    partner_id = some p.partner_id;
    counterparty_segment = some p.counterparty_segment;
    order_type = some c.order_type;
  }

  unfoldable pub send_step : SubmitOrderRequest → Action x SubmitOrderResponse
  send_step req w =
      (wrap (codes "submit order") (x.submit_order w.tick req), emit (submitted req) (advance w))

  -- The result before `Cause` is set.
  abbrev pub submit_result : ℤ × Text → SubmitOrderResponse → SubmitOrderResult
  submit_result (ref, day) resp = record {
    ref_id = ref;
    order_id = get_int resp.order_id;
    order_day = day;
    status = to_int8 (get_int resp.status);
    cause = [];
    filled_quantity = get_text resp.filled_quantity;
    average_rate = get_text resp.average_rate;
  }

  abbrev pub with_cause : SubmitOrderResponse → SubmitOrderResult → SubmitOrderResult
  with_cause resp r = record r { cause = get_text resp.cause }

  -- The switch on the status: nothing is written for a duplicate, an unknown status, and a resting order
  -- without an id; of another resting order the id alone.
  unfoldable pub reflect : SubmitOrderResponse → SubmitOrderResult → Action x SubmitOrderResult
  unfolding exec set_order_id set_outcome
  reflect resp r w =
      if eq_ℤ r.status duplicate || eq_ℤ r.status unknown
      then (ok r, w)
      else if eq_ℤ r.status pending
      then (if eq_ℤ r.order_id (pos 0) then (ok r, w) else (
        ok (with_cause resp r),
        logged x (exec x (set_order_id x r.order_id r.order_day r.ref_id)) w,
      ))
      else (
        ok (with_cause resp r),
        logged x
            (exec x (set_outcome x r.status (get_text resp.cause) r.order_id r.order_day r.ref_id))
            w,
      )

  abbrev pub after_submit : ℤ × Text → SubmitOrderResponse → Action x SubmitOrderResult
  after_submit key resp = reflect resp (submit_result key resp)

  unfoldable pub after_order_insert :
      SubmitOrderParams → Checked → ℤ × Text → Action x SubmitOrderResult
  unfolding send_step reflect
  after_order_insert p c key = do resp ← send_step (request_of p c key); after_submit key resp

  unfoldable pub after_probe : SubmitOrderParams → Checked → Bool → Action x SubmitOrderResult
  unfolding insert_order_step after_order_insert
  after_probe p c true = raise x duplicate_order
  after_probe p c false = do key ← insert_order_step p c; after_order_insert p c key

  unfoldable pub submit_checked : SubmitOrderParams → Checked → Action x SubmitOrderResult
  unfolding probe_step after_probe
  submit_checked p c = do exists ← probe_step p c; after_probe p c exists

  abbrev pub submit_with : SubmitOrderParams → Result Checked → Action x SubmitOrderResult
  submit_with p (err e) = raise x e
  submit_with p (ok c) = submit_checked p c

  -- `SubmitOrder`
  unfoldable pub submit_order : Option SubmitOrderParams → Action x SubmitOrderResult
  unfolding check_order submit_checked
  submit_order none = raise x client_id_required
  submit_order (some p) = submit_with p (check_order x p)
