-- ===== src/Order/Events.antt =====
-- `SubscribeOrderEvents` and `runOrderEventStream` of go/v1/order.go.

use fx_sdk.Order.Statements.{set_event}
use fx_sdk.Store.{World, advance, emit, exec, logged, notified}
use fx_sdk.Wire.{SubscribeOrderEventsResponse, get_int, get_text}
use fx_sdk.Platform.{Platform}
use fx_sdk.Types.{OrderEvent}
use fx_sdk.Errors.{Error}
use fx_sdk.Retry.Reconnect.{Ended, Round, reconnect, reconnect-Ended}
use fx_sdk.Common.{
  Bool, List, Option, [], codes, if◌then◌else◌, ltb_ℤ, none, pos, some, to_int8, ℕ, ℤ, ◌∷◌,
}

-- What the Core does with one stream: whether it accepts it, its messages, and the error that ends it.
pub record EventSession : Type 0 where
  pub refused_by : Option Error
  pub messages : List SubscribeOrderEventsResponse
  pub closed_by : Error

abbrev pub order_event_of : SubscribeOrderEventsResponse → OrderEvent
order_event_of resp = record {
  ref_id = get_int resp.ref_id;
  event_type = to_int8 (get_int resp.event_type);
  event_timestamp = get_text resp.event_timestamp;
  remaining_quantity = get_text resp.remaining_quantity;
  partner_id = get_text resp.partner_id;
}

module _ (x : Platform) (has_handler : Bool) where
  open x use {Decimal, Numeric}

  -- The local row; an error is logged.
  unfoldable pub apply_event :
      SubscribeOrderEventsResponse → World Numeric Decimal → World Numeric Decimal
  unfolding set_event exec
  apply_event resp w =
      if ltb_ℤ (pos 0) (get_int resp.ref_id)
      then logged x
          (exec x (
            set_event x (to_int8 (get_int resp.event_type)) (get_text resp.remaining_quantity)
              (get_text resp.order_day) (get_int resp.ref_id)))
          w
      else w

  -- The partner's handler returns nothing; that it is called is an effect.
  abbrev pub notify : OrderEvent → World Numeric Decimal → World Numeric Decimal
  notify e w = if has_handler then emit (notified e) (advance w) else w

  unfoldable pub handle_event :
      SubscribeOrderEventsResponse → World Numeric Decimal → World Numeric Decimal
  unfolding apply_event
  handle_event resp w = notify (order_event_of resp) (apply_event resp w)

  -- The loop over `Recv`.
  unfoldable pub pump_events :
      List SubscribeOrderEventsResponse → World Numeric Decimal → World Numeric Decimal
  unfolding handle_event
  pump_events [] w = w
  pump_events (resp ∷ rest) w = pump_events rest (handle_event resp w)

  -- `runOrderEventStream`, with `*attempt` as an argument and a result.
  unfoldable pub run_order_event_stream :
      EventSession → ℕ → World Numeric Decimal → Error × ℕ × World Numeric Decimal
  unfolding pump_events
  run_order_event_stream s attempt w = elim s.refused_by [
    | some e ↦ (e, attempt, w)
    | none ↦ (s.closed_by, 0, pump_events s.messages w)
  ]

  -- `SubscribeOrderEvents`
  unfoldable pub subscribe_order_events :
      (ℕ → ℕ)
      → ℤ
      → ℤ
      → List (Round EventSession)
      → ℕ
      → World Numeric Decimal
      → Option Error × List ℤ × World Numeric Decimal
  unfolding reconnect run_order_event_stream
  subscribe_order_events draw base_delay max_delay rounds attempt w =
      reconnect (codes "subscribe order events") draw base_delay max_delay run_order_event_stream
        rounds attempt w

  -- The subscription does not give up, however many streams have failed before: it returns at the first
  -- round at which the context is done, with the context's error, or whose stream ends with an error
  -- that is not transient, which it wraps; and it has not returned only if every round so far has ended
  -- with a transient error and has been waited out.
  pub subscribe_order_events-Ended :
      (draw : ℕ → ℕ) (base_delay max_delay : ℤ) (rounds : List (Round EventSession)) (attempt : ℕ)
      (w : World Numeric Decimal)
      → Ended
          (codes "subscribe order events")
          draw
          base_delay
          max_delay
          run_order_event_stream
          rounds
          (subscribe_order_events draw base_delay max_delay rounds attempt w).0
  unfolding subscribe_order_events
  subscribe_order_events-Ended draw base_delay max_delay rounds attempt w =
      reconnect-Ended (codes "subscribe order events") draw base_delay max_delay
        run_order_event_stream rounds attempt w
