-- ===== src/Client/Trades.antt =====
-- The operations on trades: each grows the database and sends only what is backed by it.

use fx_sdk.Trade.Subscribe.{subscribe_trades}
use fx_sdk.Retry.Reconnect.{Round, reconnect_inv}
use mathlib.Core.Path.{subst}
use fx_sdk.Trade.Delivery.{persist_trade-cases}
use fx_sdk.Trade.Progress.{persist_trade-Quiet, stored_ack}
use fx_sdk.Trade.Statements.{
  event_key, fail_found, fail_row, fail_with, failure_at, mark_ack, mark_settled_row, next_attempts,
  update_at, record_failure,
}
use fx_sdk.Wire.{TradeResponse, get_int}
use fx_sdk.Types.{TradeEvent}
use fx_sdk.Trade.Stream.{
  Session, ack_of, after_persist, after_send, deliver, pump, run_trade_stream,
}
use fx_sdk.Platform.{Platform}
use fx_sdk.Trade.Persist.{Persisted, persist_trade}
use fx_sdk.Order.Terms.{OrdersKept, OrdersKept-update}
use fx_sdk.Trade.Extends.{Kept, persist_trade-Extends, update_at-Extends}
use fx_sdk.Trade.Settle.{Handler, after_handler, mark_settled, settle}
use fx_sdk.Client.Later.{
  Follows, Follows-emit, Follows-quiet, Follows-refl, Follows-trans, Later, Later-eq, Later-trades,
  Steady, Steady-exec,
}
use fx_sdk.Errors.{Error, Result, err, ok}
use fx_sdk.Store.{Db, TradeKey, TradeRow, World, acked, advance, emit, exec, find_trade, handled}
use fx_sdk.Common.{
  Bool, List, Option, Text, [], arith, false, if◌then◌else◌, inl, inr, none, refl, some, sym, true,
  ℕ, ◌∷◌, ◌≡◌, codes, ℤ,
}

module _ (x : Platform) where
  open x use {Decimal, Numeric}

  persist_trade-Later :
      (resp : TradeResponse) (w : World Numeric Decimal) → Later w.db (persist_trade x resp w).1.db
  persist_trade-Later resp w = elim (persist_trade-cases x resp w) [
    | inl (e, _, same) ↦ Later-eq same
    | inr (p, ev, ek, (_, inl (_, _, s)), _) ↦ record {
      trades = persist_trade-Extends x resp w;
      orders = subst (OrdersKept w.db.orders) (sym s.orders_eq) (
          OrdersKept-update s.day (get_int resp.ref_id)
            (λ o. record o { status = ev.order_status; remaining_quantity = s.left }) w.db.orders
            (λ o. ground arith));
      recorded = λ day hour u. rw s.recons_eq u;
      closed = λ day hour u. rw s.recons_eq u;
    }
    | inr (p, ev, ek, (_, inr (_, _, same)), _) ↦ Later-eq same
  ]

  pub persist_trade-Follows :
      (resp : TradeResponse) (w : World Numeric Decimal) → Follows x w (persist_trade x resp w).1
  persist_trade-Follows resp w =
      Follows-quiet x w (persist_trade x resp w).1 (persist_trade-Later resp w)
        ((persist_trade-Quiet x resp).same w)

  update_at-Later :
      (k : Option TradeKey) (f : TradeRow Numeric → TradeRow Numeric) (d d' : Db Numeric)
      → ((r : TradeRow Numeric) → (f r).key ≡ r.key)
      → ((r : TradeRow Numeric) → Kept r (f r))
      → update_at x k f d ≡ some (tt, d')
      → Later d d'
  unfolding update_at
  update_at-Later none f d d' same kept h = cc
  update_at-Later (some k) f d d' same kept h =
      Later-trades d d' (update_at-Extends x (some k) f d d' same kept h) (ground arith)
        (ground arith)

  mark_ack-Steady : (e : TradeEvent Decimal) → Steady x (exec x (mark_ack x e))
  unfolding mark_ack
  mark_ack-Steady e = Steady-exec x (mark_ack x e) λ d a d' h.
      update_at-Later (event_key x e) (λ r. record r { ack = true }) d d' (λ r. refl)
        (λ r. ground arith) h

  mark_settled-Steady : (e : TradeEvent Decimal) → Steady x (exec x (mark_settled_row x e))
  unfolding mark_settled_row
  mark_settled-Steady e = Steady-exec x (mark_settled_row x e) λ d a d' h.
      update_at-Later (event_key x e) (λ r. record r { settled = true; settle_error = none }) d d'
        (λ r. refl) (λ r. ground arith) h

  failure_at-Later :
      (k : Option TradeKey) (why : Text) (d d' : Db Numeric)
      → failure_at x k why d ≡ some (tt, d')
      → Later d d'
  unfolding failure_at
  failure_at-Later none why d d' h = cc
  failure_at-Later (some k) why d d' h = go (find_trade k d.trades) h
    where
      last : (n : Option ℕ) → fail_with x k why d n ≡ some (tt, d') → Later d d'
      last none j = cc
      last (some n) j =
          update_at-Later (some k) (fail_row x why n) d d' (λ r. refl) (λ r. ground arith) j

      go : (f : Option (TradeRow Numeric)) → fail_found x k why d f ≡ some (tt, d') → Later d d'
      go none j = let same : d' ≡ d = cc in Later-eq same
      go (some r) j = last (next_attempts r.settle_attempts) j

  record_failure-Steady :
      (e : TradeEvent Decimal) (why : Text) → Steady x (exec x (record_failure x e why))
  unfolding record_failure
  record_failure-Steady e why =
      Steady-exec x (record_failure x e why) λ d a d' h. failure_at-Later (event_key x e) why d d' h

  pub settle-Follows :
      (handler : Option (Handler Decimal)) (e : TradeEvent Decimal) (w : World Numeric Decimal)
      → Follows x w (settle x handler e w).1
  unfolding settle mark_settled after_handler
  settle-Follows none e w = (mark_settled-Steady e).follows w
  settle-Follows (some h) e w =
      Follows-trans x (Follows-emit x (handled e) w tt)
        (go (h w.tick e) (emit (handled e) (advance w)))
    where
      go : (o : Option Text) (w1 : World Numeric Decimal) → Follows x w1 (after_handler x e o w1).1
      go none w1 = (mark_settled-Steady e).follows w1
      go (some why) w1 = (record_failure-Steady e why).follows w1

  after_send-Follows :
      (handler : Option (Handler Decimal)) (p : Persisted x) (o : Option Error)
      (w : World Numeric Decimal)
      → Follows x w (after_send x handler p o w).1
  unfolding after_send
  after_send-Follows handler p (some e) w = Follows-refl x w
  after_send-Follows handler p none w =
      let w1 = (exec x (mark_ack x p.event) w).1 in
      Follows-trans x ((mark_ack-Steady p.event).follows w) (go p.settled w1)
    where
      go :
          (b : Bool) (w1 : World Numeric Decimal)
          → Follows x w1 (if b then w1 else (settle x handler p.event w1).1)
      go true w1 = Follows-refl x w1
      go false w1 = settle-Follows handler p.event w1

  deliver-Follows :
      (handler : Option (Handler Decimal)) (send : ℕ → Option Error) (resp : TradeResponse)
      (w : World Numeric Decimal)
      → Follows x w (deliver x handler send resp w).1
  unfolding deliver after_persist
  deliver-Follows handler send resp w =
      go (persist_trade x resp w) refl (persist_trade-Follows resp w)
    where
      go :
          (r : Result (Persisted x) × World Numeric Decimal)
          → persist_trade x resp w ≡ r
          → Follows x w r.1
          → Follows x w (after_persist x handler send resp r).1
      go (err e, w1) h f = f
      go (ok p, w1) h f = Follows-trans x f (
          Follows-trans x (Follows-emit x (acked (ack_of x resp)) w1 (stored_ack x resp w h)) (
            after_send-Follows handler p (send w1.tick)
              (emit (acked (ack_of x resp)) (advance w1))))

  pump-Follows :
      (handler : Option (Handler Decimal)) (s : Session) (messages : List TradeResponse)
      (w : World Numeric Decimal)
      → Follows x w (pump x handler s messages w).1
  unfolding pump
  pump-Follows handler s [] w = Follows-refl x w
  pump-Follows handler s (resp ∷ rest) w =
      go (deliver x handler s.send resp w) (deliver-Follows handler s.send resp w)
        (λ v. pump-Follows handler s rest v)
    where
      go :
          (r : Option Error × World Numeric Decimal)
          → Follows x w r.1
          → ((v : World Numeric Decimal) → Follows x v (pump x handler s rest v).1)
          → Follows x w
              (elim r.0 as (λ _. Error × World Numeric Decimal) [
                | some e ↦ (e, r.1)
                | none ↦ pump x handler s rest r.1
              ]).1
      go (none, w1) f ih = Follows-trans x f (ih w1)
      go (some e, w1) f ih = f

  run_trade_stream-Follows :
      (handler : Option (Handler Decimal)) (s : Session) (attempt : ℕ) (w : World Numeric Decimal)
      → Follows x w (run_trade_stream x handler s attempt w).2
  unfolding run_trade_stream
  run_trade_stream-Follows handler s attempt w = go s.refused_by
    where
      go :
          (o : Option Error)
          → Follows x w
              (elim o as (λ _. Error × ℕ × World Numeric Decimal) [
                | some e ↦ (e, attempt, w)
                | none ↦ ((pump x handler s s.messages w).0, 0, (pump x handler s s.messages w).1)
              ]).2
      go (some e) = Follows-refl x w
      go none = pump-Follows handler s s.messages w

  pub subscribe_trades-Follows :
      (draw : ℕ → ℕ) (base_delay max_delay : ℤ) (handler : Option (Handler Decimal))
      (rounds : List (Round Session)) (attempt : ℕ) (w : World Numeric Decimal)
      → Follows x w (subscribe_trades x draw base_delay max_delay handler rounds attempt w).2
  unfolding subscribe_trades
  subscribe_trades-Follows draw base_delay max_delay handler rounds attempt w =
      reconnect_inv (codes "subscribe trades") draw base_delay max_delay (Follows x w)
        (run_trade_stream x handler)
        (λ s n v f. Follows-trans x f (run_trade_stream-Follows handler s n v)) rounds attempt w
        (Follows-refl x w)
