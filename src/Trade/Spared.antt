-- ===== src/Trade/Spared.antt =====
-- What `SubscribeTrades` and the loop of recovery and repair (go/v1/trade.go, go/v1/recover.go) do with a
-- trade that is settled already, however often it is delivered again.

use fx_sdk.Store.Laws.{trace-exec}
use fx_sdk.Trade.Subscribe.{subscribe_trades}
use fx_sdk.Trade.Once.{persist_trade-key, persist_trade-stored}
use fx_sdk.Trade.Progress.{persist_trade-Quiet}
use fx_sdk.Trade.Statements.{event_key, mark_ack, mark_settled_row, record_failure}
use fx_sdk.Wire.{TradeResponse}
use fx_sdk.Types.{TradeEvent}
use fx_sdk.Trade.Stream.{
  Session, ack_of, after_persist, after_send, deliver, pump, run_trade_stream,
}
use fx_sdk.Retry.Reconnect.{Round, reconnect_inv}
use fx_sdk.Platform.{Platform}
use fx_sdk.Trade.Persist.{Persisted, persist_trade}
use fx_sdk.Trade.Settle.{Handler, after_handler, mark_settled, settle}
use fx_sdk.Trade.Extends.{
  Extends, record_failure-Extends, mark_ack-Extends, mark_settled-Extends, persist_trade-Extends,
}
use fx_sdk.Errors.{Error, Result, err, ok}
use fx_sdk.Store.{
  Effect, TradeKey, TradeRow, World, acked, advance, cancel_sent, emit, exec, find_trade, handled,
  notified, submitted,
}
use fx_sdk.Trade.Pull.{Counts, after_pull, count_inserted, pull_all, pull_result, settle_unless}
use fx_sdk.Common.{
  All, Bool, List, Option, Text, [], ap, codes, false, if◌then◌else◌, none, refl, some,
  some-injective, sym, true, ℕ, ℤ, ◌++◌, ◌∙◌, ◌∷◌, ◌≡◌, ◌≢◌,
}

-- The row of the trade, settled.
pub record Settled {N : Type 0} (k : TradeKey) (rs : List (TradeRow N)) : Type 0 where
  pub row : TradeRow N
  pub found : find_trade k rs ≡ some row
  pub is_settled : row.settled ≡ true

Settled-Extends :
    {N : Type 0} (k : TradeKey) {a b : List (TradeRow N)} → Extends a b → Settled k a → Settled k b
Settled-Extends k h s =
    let (row, found, kept) = h.stays k s.row s.found in
    record { row = row; found = found; is_settled = kept.settled_stays s.is_settled }

module _ (x : Platform) where
  open x use {Decimal, Numeric}

  -- What leaves the SDK is no call of the handler for the trade.
  abbrev pub Spares : TradeKey → Effect Decimal → Type 0
  Spares k (handled e) = event_key x e ≢ some k
  Spares k (acked r) = Unit
  Spares k (submitted r) = Unit
  Spares k (cancel_sent r) = Unit
  Spares k (notified e) = Unit

  -- A state that is reached from the trace `t` without a call of the handler for the trade, which is
  -- settled in it.
  pub record Spared (k : TradeKey) (t : List (Effect Decimal)) (w : World Numeric Decimal)
      : Type 0 where
    pub settled : Settled k w.db.trades
    pub sent : List (Effect Decimal)
    pub trace_eq : w.trace ≡ sent ++ t
    pub spared : All (Spares k) sent

  module _ (k : TradeKey) (t : List (Effect Decimal)) where
    Spared-quiet :
        (w v : World Numeric Decimal)
        → Extends w.db.trades v.db.trades
        → v.trace ≡ w.trace
        → Spared k t w
        → Spared k t v
    Spared-quiet w v h same s = record {
      settled = Settled-Extends k h s.settled;
      sent = s.sent;
      trace_eq = same ∙ s.trace_eq;
      spared = s.spared;
    }

    Spared-emit :
        (e : Effect Decimal) (w : World Numeric Decimal)
        → Spares k e
        → Spared k t w
        → Spared k t (emit e (advance w))
    Spared-emit e w free s = record {
      settled = s.settled;
      sent = e ∷ s.sent;
      trace_eq = ap (λ (l : List (Effect Decimal)). e ∷ l) s.trace_eq;
      spared = (free, s.spared);
    }

    settle-Spared :
        (handler : Option (Handler Decimal)) (e : TradeEvent Decimal) (w : World Numeric Decimal)
        → event_key x e ≢ some k
        → Spared k t w
        → Spared k t (settle x handler e w).1
    unfolding settle mark_settled after_handler
    settle-Spared none e w free s =
        Spared-quiet w (mark_settled x e w) (mark_settled-Extends x e w)
          (trace-exec x (mark_settled_row x e) w) s
    settle-Spared (some h) e w free s =
        go (h w.tick e) (emit (handled e) (advance w)) (Spared-emit (handled e) w free s)
      where
        go :
            (o : Option Text) (w1 : World Numeric Decimal)
            → Spared k t w1
            → Spared k t (after_handler x e o w1).1
        go none w1 s =
            Spared-quiet w1 (mark_settled x e w1) (mark_settled-Extends x e w1)
              (trace-exec x (mark_settled_row x e) w1) s
        go (some why) w1 s =
            Spared-quiet w1 (exec x (record_failure x e why) w1).1
              (record_failure-Extends x e why w1) (trace-exec x (record_failure x e why) w1) s

    -- Of a trade that is settled, a run of `persistTrade` reports it.
    persist_trade-Settled :
        (resp : TradeResponse) (w : World Numeric Decimal) {p : Persisted x}
        → Settled k w.db.trades
        → (persist_trade x resp w).0 ≡ ok p
        → p.settled ≡ false
        → event_key x p.event ≢ some k
    persist_trade-Settled resp w {p} s ran free key =
        let (j, row, at, found, flag) = persist_trade-stored x resp w ran in
        let same : j ≡ k = some-injective (sym at ∙ sym (persist_trade-key x resp w ran) ∙ key) in
        let later = Settled-Extends k (persist_trade-Extends x resp w) s in
        let rows : row ≡ later.row = some-injective (
          sym found
          ∙ ap (λ (i : TradeKey). find_trade i (persist_trade x resp w).1.db.trades) same
          ∙ later.found) in
        let yes : p.settled ≡ true =
          sym flag ∙ ap (λ (r : TradeRow Numeric). r.settled) rows ∙ later.is_settled in
        cc

    after_send-Spared :
        (handler : Option (Handler Decimal)) (p : Persisted x) (o : Option Error)
        (w : World Numeric Decimal)
        → (p.settled ≡ false → event_key x p.event ≢ some k)
        → Spared k t w
        → Spared k t (after_send x handler p o w).1
    unfolding after_send
    after_send-Spared handler p (some e) w free s = s
    after_send-Spared handler p none w free s =
        let w1 = (exec x (mark_ack x p.event) w).1 in
        go p.settled w1 free
          (Spared-quiet w w1 (mark_ack-Extends x p.event w) (trace-exec x (mark_ack x p.event) w) s)
      where
        go :
            (b : Bool) (w1 : World Numeric Decimal)
            → (b ≡ false → event_key x p.event ≢ some k)
            → Spared k t w1
            → Spared k t (if b then w1 else (settle x handler p.event w1).1)
        go true w1 free s = s
        go false w1 free s = settle-Spared handler p.event w1 (free refl) s

    persist_trade-Spared :
        (resp : TradeResponse) (w : World Numeric Decimal)
        → Spared k t w
        → Spared k t (persist_trade x resp w).1
    persist_trade-Spared resp w s =
        Spared-quiet w (persist_trade x resp w).1 (persist_trade-Extends x resp w)
          ((persist_trade-Quiet x resp).same w) s

    deliver-Spared :
        (handler : Option (Handler Decimal)) (send : ℕ → Option Error) (resp : TradeResponse)
        (w : World Numeric Decimal)
        → Spared k t w
        → Spared k t (deliver x handler send resp w).1
    unfolding deliver after_persist
    deliver-Spared handler send resp w s =
        go (persist_trade x resp w) (persist_trade-Spared resp w s)
          (λ q ran. persist_trade-Settled resp w s.settled ran)
      where
        go :
            (r : Result (Persisted x) × World Numeric Decimal)
            → Spared k t r.1
            → ((q : Persisted x) → r.0 ≡ ok q → q.settled ≡ false → event_key x q.event ≢ some k)
            → Spared k t (after_persist x handler send resp r).1
        go (err e, w1) f free = f
        go (ok p, w1) f free =
            after_send-Spared handler p (send w1.tick) (emit (acked (ack_of x resp)) (advance w1))
              (free p refl) (Spared-emit (acked (ack_of x resp)) w1 tt f)

    pump-Spared :
        (handler : Option (Handler Decimal)) (s : Session) (messages : List TradeResponse)
        (w : World Numeric Decimal)
        → Spared k t w
        → Spared k t (pump x handler s messages w).1
    unfolding pump
    pump-Spared handler s [] w h = h
    pump-Spared handler s (resp ∷ rest) w h =
        go (deliver x handler s.send resp w) (deliver-Spared handler s.send resp w h)
          (λ v. pump-Spared handler s rest v)
      where
        go :
            (r : Option Error × World Numeric Decimal)
            → Spared k t r.1
            → ((v : World Numeric Decimal) → Spared k t v → Spared k t (pump x handler s rest v).1)
            → Spared k t
                (elim r.0 as (λ _. Error × World Numeric Decimal) [
                  | some e ↦ (e, r.1)
                  | none ↦ pump x handler s rest r.1
                ]).1
        go (none, w1) f ih = ih w1 f
        go (some e, w1) f ih = f

    run_trade_stream-Spared :
        (handler : Option (Handler Decimal)) (s : Session) (attempt : ℕ) (w : World Numeric Decimal)
        → Spared k t w
        → Spared k t (run_trade_stream x handler s attempt w).2
    unfolding run_trade_stream
    run_trade_stream-Spared handler s attempt w h = go s.refused_by
      where
        go :
            (o : Option Error)
            → Spared k t
                (elim o as (λ _. Error × ℕ × World Numeric Decimal) [
                  | some e ↦ (e, attempt, w)
                  | none ↦ ((pump x handler s s.messages w).0, 0, (pump x handler s s.messages w).1)
                ]).2
        go (some e) = h
        go none = pump-Spared handler s s.messages w h

    pull_result-Spared :
        (handler : Option (Handler Decimal)) (c : Counts)
        (r : Result (Persisted x) × World Numeric Decimal)
        → Spared k t r.1
        → ((q : Persisted x) → r.0 ≡ ok q → q.settled ≡ false → event_key x q.event ≢ some k)
        → Spared k t (pull_result x handler c r).1
    unfolding pull_result after_pull settle_unless
    pull_result-Spared handler c (err e, w) f free = f
    pull_result-Spared handler c (ok p, w) f free = go p.settled (free p refl)
      where
        go :
            (b : Bool)
            → (b ≡ false → event_key x p.event ≢ some k)
            → Spared k t (settle_unless x b handler (count_inserted x p.inserted c) p.event w).1
        go true free = f
        go false free = settle-Spared handler p.event w (free refl) f

  Spared-refl :
      (k : TradeKey) (w : World Numeric Decimal) → Settled k w.db.trades → Spared k w.trace w
  Spared-refl k w s = record { settled = s; sent = []; trace_eq = refl; spared = tt }

  -- Settled once: a trade that is settled is never handed to the partner's handler again, however often
  -- its message is delivered, over all streams and reconnects of the subscription, whatever the outcomes
  -- of the calls are; and it stays settled.
  pub subscribe_trades-Spared :
      (draw : ℕ → ℕ) (base_delay max_delay : ℤ) (handler : Option (Handler Decimal))
      (rounds : List (Round Session)) (attempt : ℕ) (w : World Numeric Decimal) (k : TradeKey)
      → Settled k w.db.trades
      → Spared k w.trace (subscribe_trades x draw base_delay max_delay handler rounds attempt w).2
  unfolding subscribe_trades
  subscribe_trades-Spared draw base_delay max_delay handler rounds attempt w k s =
      reconnect_inv (codes "subscribe trades") draw base_delay max_delay (Spared k w.trace)
        (run_trade_stream x handler) (run_trade_stream-Spared k w.trace handler) rounds attempt w
        (Spared-refl k w s)

  pull_all_inv :
      (k : TradeKey) (t : List (Effect Decimal)) (handler : Option (Handler Decimal))
      (raw : List TradeResponse) (c : Counts) (w : World Numeric Decimal)
      → Spared k t w
      → Spared k t (pull_all x handler raw c w).1
  unfolding pull_all
  pull_all_inv k t handler [] c w s = s
  pull_all_inv k t handler (resp ∷ rest) c w s =
      let (c1, w1) = pull_result x handler c (persist_trade x resp w) in
      pull_all_inv k t handler rest c1 w1 (
        pull_result-Spared k t handler c (persist_trade x resp w)
          (persist_trade-Spared k t resp w s)
          (λ q ran. persist_trade-Settled k t resp w s.settled ran))

  -- The loop that recovery and repair run over the trades they pull does not hand a settled trade to the
  -- partner's handler either, and leaves it settled.
  pub pull_all-Spared :
      (handler : Option (Handler Decimal)) (raw : List TradeResponse) (c : Counts)
      (w : World Numeric Decimal) (k : TradeKey)
      → Settled k w.db.trades
      → Spared k w.trace (pull_all x handler raw c w).1
  pull_all-Spared handler raw c w k s = pull_all_inv k w.trace handler raw c w (Spared-refl k w s)
