-- ===== src/Client/Updates.antt =====
-- The updates of an order leave its terms.

use mathlib.Core.Path.{subst}
use fx_sdk.Trade.Statements.{numeric_column}
use fx_sdk.Order.Statements.{
  nullif_zero, set_cancelled, set_event, set_order_id, set_outcome, update_at_day, update_day,
  with_remaining,
}
use fx_sdk.Platform.{Platform}
use fx_sdk.Order.Terms.{OrdersKept-update, SameTerms}
use fx_sdk.Client.Later.{Later, Later-orders, Steady, Steady-exec}
use fx_sdk.Store.{Db, OrderRow, exec, update_order}
use fx_sdk.Time.Date.{Date}
use fx_sdk.Types.{OrderStatus}
use fx_sdk.Common.{Option, Text, arith, none, refl, some, sym, ℤ, ◌≡◌}

module _ (x : Platform) where
  open x use {Decimal, Numeric, date_in, now}

  -- A write to one order that leaves its terms.
  update_at_day-Steady :
      (day : Text) (ref : ℤ) (f : OrderRow Numeric → OrderRow Numeric)
      → ((o : OrderRow Numeric) → SameTerms o (f o))
      → (d : Db Numeric) (a : Unit {0}) (d' : Db Numeric)
      → update_at_day x day ref f d ≡ some (a, d')
      → Later d d'
  update_at_day-Steady day ref f same d a d' h = go (date_in day) h
    where
      go : (o : Option Date) → update_day x o ref f d ≡ some (a, d') → Later d d'
      go none j = cc
      go (some at) j =
          let eq : d' ≡ record d { orders = update_order at ref f d.orders } = cc in
          subst (Later d) (sym eq) (
            Later-orders d (record d { orders = update_order at ref f d.orders })
              (OrdersKept-update at ref f d.orders same) refl refl)

  pub set_order_id-Steady :
      (id : ℤ) (day : Text) (ref : ℤ) → Steady x (exec x (set_order_id x id day ref))
  unfolding set_order_id
  set_order_id-Steady id day ref =
      Steady-exec x (set_order_id x id day ref)
        (update_at_day-Steady day ref (λ o. record o { order_id = some id }) (λ o. ground arith))

  pub set_outcome-Steady :
      (status : OrderStatus) (cause : Text) (id : ℤ) (day : Text) (ref : ℤ)
      → Steady x (exec x (set_outcome x status cause id day ref))
  unfolding set_outcome
  set_outcome-Steady status cause id day ref =
      Steady-exec x (set_outcome x status cause id day ref) (
        update_at_day-Steady day ref
          (λ o. record o { status = status; cause = some cause; order_id = nullif_zero x id })
          (λ o. ground arith))

  with_remaining-Later :
      (f : Numeric → OrderRow Numeric → OrderRow Numeric) (day : Text) (ref : ℤ)
      (n : Option Numeric)
      → ((m : Numeric) (o : OrderRow Numeric) → SameTerms o (f m o))
      → (d : Db Numeric) (a : Unit {0}) (d' : Db Numeric)
      → with_remaining x (λ m. update_at_day x day ref (f m)) n d ≡ some (a, d')
      → Later d d'
  with_remaining-Later f day ref none same d a d' h = cc
  with_remaining-Later f day ref (some m) same d a d' h =
      update_at_day-Steady day ref (f m) (same m) d a d' h

  pub set_cancelled-Steady :
      (status : OrderStatus) (cause remaining day : Text) (ref : ℤ)
      → Steady x (exec x (set_cancelled x status cause remaining day ref))
  unfolding set_cancelled
  set_cancelled-Steady status cause remaining day ref =
      Steady-exec x (set_cancelled x status cause remaining day ref) (
        with_remaining-Later
          (λ n o. record o { status = status; cause = some cause; remaining_quantity = n }) day ref
          (numeric_column x remaining) (λ n o. ground arith))

  pub set_event-Steady :
      (status : OrderStatus) (remaining day : Text) (ref : ℤ)
      → Steady x (exec x (set_event x status remaining day ref))
  unfolding set_event
  set_event-Steady status remaining day ref = Steady-exec x (set_event x status remaining day ref) (
      with_remaining-Later (λ n o. record o { status = status; remaining_quantity = n }) day ref
        (numeric_column x remaining) (λ n o. ground arith))
