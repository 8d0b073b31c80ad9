-- ===== src/Example/Watch.antt =====
-- The background work of the example program (go/example/main.go): the subscriptions, the retry of
-- settlements and the reconciliation of the completed hours. Log lines are left out.

use fx_sdk.Trade.Subscribe.{subscribe_trades}
use fx_sdk.Trade.Stream.{Session}
use fx_sdk.Retry.Reconnect.{Round}
use fx_sdk.Order.Events.{EventSession, subscribe_order_events}
use fx_sdk.Errors.{Error}
use fx_sdk.Trade.Unsettled.{retry_unsettled}
use fx_sdk.Reconcile.Drill.{reconcile_diff}
use fx_sdk.Store.{World}
use fx_sdk.Time.Zone.{Stamp, previous_hour, today}
use fx_sdk.Reconcile.Repair.{Repaired, reconcile_repair}
use fx_sdk.Types.{ReconcileParams, resolved}
use fx_sdk.Platform.{Platform}
use fx_sdk.Trade.Settle.{Handler}
use fx_sdk.Common.{
  Bool, List, Text, [], eq_text, false, if◌then◌else◌, none, pos, some, suc, true, zero, ℕ, ◌+◌,
  ◌∷◌, Option, ℤ,
}

module _ (x : Platform) where
  open x use {Decimal, Numeric, date_in}

  -- `handleTrade`, which only logs, as `handleOrderEvent` does
  unfoldable pub handle_trade : Handler Decimal
  handle_trade n e = none

  -- The delays between the streams, from 100 milliseconds to 5 seconds.
  abbrev pub base_delay : ℤ
  base_delay = pos 100000000

  abbrev pub max_delay : ℤ
  max_delay = pos 5000000000

  -- The first two goroutines: the subscriptions with their handlers, which only log, over the rounds of
  -- the stream; a subscription returns its error.
  unfoldable pub watch_orders :
      (ℕ → ℕ)
      → List (Round EventSession)
      → World Numeric Decimal
      → Option Error × World Numeric Decimal
  unfolding subscribe_order_events
  watch_orders draw rounds w =
      let (e, delays, v) = subscribe_order_events x true draw base_delay max_delay rounds 0 w in
      (e, v)

  unfoldable pub watch_trades :
      (ℕ → ℕ) → List (Round Session) → World Numeric Decimal → Option Error × World Numeric Decimal
  unfolding subscribe_trades
  watch_trades draw rounds w =
      let (e, delays, v) =
        subscribe_trades x draw base_delay max_delay (some handle_trade) rounds 0 w in
      (e, v)

  -- The ticks of a timer: what each is given, until the context is done.
  unfoldable pub retry_ticks : ℕ → World Numeric Decimal → World Numeric Decimal
  retry_ticks zero w = w
  retry_ticks (suc n) w = retry_ticks n (retry_unsettled x (some handle_trade) w).1

  -- The third goroutine: once at the start, then at each of the ticks before the context is done.
  unfoldable pub keep_settling : ℕ → World Numeric Decimal → World Numeric Decimal
  unfolding retry_ticks
  keep_settling ticks w = retry_ticks ticks (retry_unsettled x (some handle_trade) w).1

  abbrev pub slot_of : Text → Text → ℕ → ReconcileParams
  slot_of partner day hour = record { partner_id = partner; day = day; hour = pos hour }

  -- What is left open is looked into by a diff.
  abbrev pub after_reconcile : ReconcileParams → Repaired x → World Numeric Decimal
  after_reconcile p (some e, res, w) = w
  after_reconcile p (none, none, w) = w
  after_reconcile p (none, some res, w) =
      if resolved res then w else (reconcile_diff x (some p) w).1

  -- `reconcileHour`
  unfoldable pub reconcile_slot : Text → Text → ℕ → World Numeric Decimal → World Numeric Decimal
  unfolding reconcile_repair resolved reconcile_diff
  reconcile_slot partner day hour w =
      after_reconcile (slot_of partner day hour)
        (reconcile_repair x (some handle_trade) (some (slot_of partner day hour)) w)

  -- `for h := range hour`, from hour `h` on with `left` hours to go; `stopped h` says that the context is
  -- done before hour `h`. Whether the loop has run to its end, and the state.
  unfoldable pub catch_up :
      (ℕ → Bool) → Text → Text → ℕ → ℕ → World Numeric Decimal → Bool × World Numeric Decimal
  unfolding reconcile_slot
  catch_up stopped partner day zero h w = (true, w)
  catch_up stopped partner day (suc left) h w =
      let rest = catch_up stopped partner day left (h + 1) (reconcile_slot partner day h w) in
      if stopped h then (false, w) else rest

  abbrev pub then_last :
      Text → Text → ℕ → Bool × World Numeric Decimal → Bool × World Numeric Decimal
  then_last partner day hour (false, w) = (false, w)
  then_last partner day hour (true, w) = (true, reconcile_slot partner day hour w)

  -- The start of the fourth goroutine: the completed hours of today, if there are any, and the last one.
  -- The clock is read twice.
  unfoldable pub start_watch :
      (ℕ → Bool) → Text → Stamp → Stamp → World Numeric Decimal → Bool × World Numeric Decimal
  unfolding catch_up previous_hour today
  start_watch stopped partner clock clock' w =
      let (day, hour) = previous_hour clock in
      let caught_up = catch_up stopped partner day hour 0 w in
      then_last partner day hour (if eq_text day (today clock') then caught_up else (true, w))

  -- The loop on the timer, over the readings of the clock when it fires before the context is done.
  unfoldable pub hourly : Text → List Stamp → World Numeric Decimal → World Numeric Decimal
  unfolding reconcile_slot previous_hour
  hourly partner [] w = w
  hourly partner (clock ∷ rest) w =
      let (day, hour) = previous_hour clock in
      hourly partner rest (reconcile_slot partner day hour w)
