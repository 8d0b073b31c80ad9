-- ===== src/Client/Answers.antt =====
-- Cancellation and the events of orders grow the database and send only what is backed by it.

use fx_sdk.Client.Updates.{set_cancelled-Steady, set_event-Steady}
use fx_sdk.Order.Statements.{set_cancelled, set_event}
use fx_sdk.Order.Cancel.{after_cancel, apply_cancel, cancel_order, cancel_with, check_cancel}
use fx_sdk.Retry.Reconnect.{Round, reconnect_inv}
use fx_sdk.Platform.{Platform}
use fx_sdk.Client.Later.{Follows, Follows-emit, Follows-refl, Follows-trans}
use fx_sdk.Order.Events.{
  EventSession, apply_event, handle_event, order_event_of, pump_events, run_order_event_stream,
  subscribe_order_events,
}
use fx_sdk.Errors.{Error, Result, err, ok}
use fx_sdk.Store.{World, advance, cancel_sent, emit, exec, notified}
use fx_sdk.Wire.{
  CancelOrderRequest, CancelOrderResponse, SubscribeOrderEventsResponse, get_bool, get_int,
  get_text,
}
use fx_sdk.Types.{CancelOrderParams}
use fx_sdk.Common.{
  Bool, List, Option, Text, [], codes, eq_ℤ, false, if◌then◌else◌, ltb_ℤ, none, not, pos, some,
  to_int8, true, ℕ, ℤ, ◌&&◌, ◌∷◌,
}

module _ (x : Platform) where
  open x use {Decimal, Numeric, date_in, now}

  apply_cancel-Follows :
      (day : Text) (resp : CancelOrderResponse) (w : World Numeric Decimal)
      → Follows x w (apply_cancel x day resp w)
  unfolding apply_cancel
  apply_cancel-Follows day resp w =
      go (get_bool resp.success && not (eq_ℤ (get_int resp.ref_id) (pos 0)))
    where
      go :
          (b : Bool)
          → Follows x w (
              if b
              then (exec x
                  (set_cancelled x
                    (to_int8 (get_int resp.order_status))
                    (get_text resp.cause)
                    (get_text resp.remaining_quantity)
                    day
                    (get_int resp.ref_id))
                  w).1
              else w)
      go true =
          (set_cancelled-Steady x (to_int8 (get_int resp.order_status)) (get_text resp.cause)
              (get_text resp.remaining_quantity) day (get_int resp.ref_id)).follows
            w
      go false = Follows-refl x w

  pub cancel_order-Follows :
      (p : Option CancelOrderParams) (w : World Numeric Decimal)
      → Follows x w (cancel_order x p w).1
  unfolding cancel_order
  cancel_order-Follows none w = Follows-refl x w
  cancel_order-Follows (some p) w = go (check_cancel p)
    where
      answered :
          (v : World Numeric Decimal) (r : Result CancelOrderResponse)
          → Follows x v (after_cancel x p.order_day r v).1
      answered v (ok resp) = apply_cancel-Follows p.order_day resp v
      answered v (err e) = Follows-refl x v

      go : (r : Result CancelOrderRequest) → Follows x w (cancel_with x p.order_day r w).1
      go (err e) = Follows-refl x w
      go (ok req) =
          Follows-trans x (Follows-emit x (cancel_sent req) w tt)
            (answered (emit (cancel_sent req) (advance w)) (x.cancel_order w.tick req))

  handle_event-Follows :
      (has_handler : Bool) (resp : SubscribeOrderEventsResponse) (w : World Numeric Decimal)
      → Follows x w (handle_event x has_handler resp w)
  unfolding handle_event apply_event
  handle_event-Follows has_handler resp w =
      Follows-trans x (applied (ltb_ℤ (pos 0) (get_int resp.ref_id)))
        (told has_handler (apply_event x has_handler resp w))
    where
      applied :
          (b : Bool)
          → Follows x w (
              if b
              then (exec x
                  (set_event x
                    (to_int8 (get_int resp.event_type))
                    (get_text resp.remaining_quantity)
                    (get_text resp.order_day)
                    (get_int resp.ref_id))
                  w).1
              else w)
      applied true =
          (set_event-Steady x (to_int8 (get_int resp.event_type)) (get_text resp.remaining_quantity)
              (get_text resp.order_day) (get_int resp.ref_id)).follows
            w
      applied false = Follows-refl x w

      told :
          (b : Bool) (v : World Numeric Decimal)
          → Follows x v (if b then emit (notified (order_event_of resp)) (advance v) else v)
      told true v = Follows-emit x (notified (order_event_of resp)) v tt
      told false v = Follows-refl x v

  pump_events-Follows :
      (has_handler : Bool) (messages : List SubscribeOrderEventsResponse)
      (w : World Numeric Decimal)
      → Follows x w (pump_events x has_handler messages w)
  unfolding pump_events
  pump_events-Follows has_handler [] w = Follows-refl x w
  pump_events-Follows has_handler (resp ∷ rest) w =
      Follows-trans x (handle_event-Follows has_handler resp w)
        (pump_events-Follows has_handler rest (handle_event x has_handler resp w))

  run_order_event_stream-Follows :
      (has_handler : Bool) (s : EventSession) (attempt : ℕ) (w : World Numeric Decimal)
      → Follows x w (run_order_event_stream x has_handler s attempt w).2
  unfolding run_order_event_stream
  run_order_event_stream-Follows has_handler s attempt w = go s.refused_by
    where
      go :
          (o : Option Error)
          → Follows x w
              (elim o as (λ _. Error × ℕ × World Numeric Decimal) [
                | some e ↦ (e, attempt, w)
                | none ↦ (s.closed_by, 0, pump_events x has_handler s.messages w)
              ]).2
      go (some e) = Follows-refl x w
      go none = pump_events-Follows has_handler s.messages w

  pub subscribe_order_events-Follows :
      (has_handler : Bool) (draw : ℕ → ℕ) (base_delay max_delay : ℤ)
      (rounds : List (Round EventSession)) (attempt : ℕ) (w : World Numeric Decimal)
      → Follows x w
          (subscribe_order_events x has_handler draw base_delay max_delay rounds attempt w).2
  unfolding subscribe_order_events
  subscribe_order_events-Follows has_handler draw base_delay max_delay rounds attempt w =
      reconnect_inv (codes "subscribe order events") draw base_delay max_delay (Follows x w)
        (run_order_event_stream x has_handler)
        (λ s n v f. Follows-trans x f (run_order_event_stream-Follows has_handler s n v)) rounds
        attempt w (Follows-refl x w)
