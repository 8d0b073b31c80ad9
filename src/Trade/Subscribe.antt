-- ===== src/Trade/Subscribe.antt =====
-- `SubscribeTrades` of go/v1/trade.go: the loop that reopens the trade stream.
use fx_sdk.Store.{World}
use fx_sdk.Trade.Stream.{Session, pump, run_trade_stream}
use fx_sdk.Platform.{Platform}
use fx_sdk.Common.{List, Option, codes, none, some, ℕ, ℤ}
use fx_sdk.Trade.Settle.{Handler}
use fx_sdk.Errors.{Error}
use fx_sdk.Retry.Reconnect.{Ended, Round, reconnect, reconnect-Ended, reconnect_inv}
use fx_sdk.Trade.Progress.{AcksStored, pump-acks}

module _ (x : Platform) (draw : ℕ → ℕ) (base_delay max_delay : ℤ) where
  open x use {Decimal, Numeric}

  -- `SubscribeTrades`
  unfoldable pub subscribe_trades :
      Option (Handler Decimal)
      → List (Round Session)
      → ℕ
      → World Numeric Decimal
      → Option Error × List ℤ × World Numeric Decimal
  unfolding reconnect run_trade_stream
  subscribe_trades handler rounds attempt w =
      reconnect (codes "subscribe trades") draw base_delay max_delay (run_trade_stream x handler)
        rounds attempt w

  run_trade_stream-acks :
      (handler : Option (Handler Decimal)) (s : Session) (attempt : ℕ) (w : World Numeric Decimal)
      → AcksStored x w
      → AcksStored x (run_trade_stream x handler s attempt w).2
  unfolding run_trade_stream
  run_trade_stream-acks handler s attempt w u = go s.refused_by
    where
      go :
          (o : Option Error)
          → AcksStored x
              (elim o as (λ _. Error × ℕ × World Numeric Decimal) [
                | some e ↦ (e, attempt, w)
                | none ↦ ((pump x handler s s.messages w).0, 0, (pump x handler s s.messages w).1)
              ]).2
      go (some e) = u
      go none = pump-acks x handler s s.messages w u

  -- If every ack that has left the SDK names a stored trade, then so after any number of streams and
  -- reconnects, whatever the Core sends, the handler returns and the calls' outcomes are.
  pub subscribe_trades-acks :
      (handler : Option (Handler Decimal)) (rs : List (Round Session)) (attempt : ℕ)
      (w : World Numeric Decimal)
      → AcksStored x w
      → AcksStored x (subscribe_trades handler rs attempt w).2
  unfolding subscribe_trades
  subscribe_trades-acks handler rs attempt w u =
      reconnect_inv (codes "subscribe trades") draw base_delay max_delay (AcksStored x)
        (run_trade_stream x handler) (run_trade_stream-acks handler) rs attempt w u

  -- The subscription does not give up, however many streams have failed before: it returns at the first
  -- round at which the context is done, with the context's error, or whose stream ends with an error
  -- that is not transient, which it wraps; and it has not returned only if every round so far has ended
  -- with a transient error and has been waited out.
  pub subscribe_trades-Ended :
      (handler : Option (Handler Decimal)) (rs : List (Round Session)) (attempt : ℕ)
      (w : World Numeric Decimal)
      → Ended
          (codes "subscribe trades")
          draw
          base_delay
          max_delay
          (run_trade_stream x handler)
          rs
          (subscribe_trades handler rs attempt w).0
  unfolding subscribe_trades
  subscribe_trades-Ended handler rs attempt w =
      reconnect-Ended (codes "subscribe trades") draw base_delay max_delay
        (run_trade_stream x handler) rs attempt w
