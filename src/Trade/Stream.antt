-- ===== src/Trade/Stream.antt =====
-- `runTradeStream` of go/v1/trade.go: one trade stream, from the open to its error.
use fx_sdk.Store.{exec, World, acked, advance, emit, logged}
use fx_sdk.Trade.Persist.{persist_trade, Persisted}
use fx_sdk.Trade.Statements.{mark_ack}
use fx_sdk.Wire.{TradeResponse, TradeRequest}
use fx_sdk.Trade.Settle.{Handler, settle}
use fx_sdk.Errors.{Error, Result, err, ok}
use fx_sdk.Platform.{Platform}
use fx_sdk.Common.{Option, List, ℕ, ◌∷◌, [], if◌then◌else◌, none, some}

-- What the Core does with one stream: whether it accepts it, the messages it sends, the error that ends
-- it, and how the sends of acks end.
pub record Session : Type 0 where
  pub refused_by : Option Error
  pub messages : List TradeResponse
  pub closed_by : Error
  pub send : ℕ → Option Error

module _ (x : Platform) where
  open x use {Decimal, Numeric}

  abbrev pub ack_of : TradeResponse → TradeRequest
  ack_of resp = record {
    side = resp.side;
    trade_id = resp.id;
    trading_day = resp.trading_day;
    partner_id = resp.partner_id;
  }

  -- From the persisted trade on: the ack, its mark, and settlement unless it is settled. An error of
  -- `Send` ends the stream.
  unfoldable pub after_send :
      Option (Handler Decimal)
      → Persisted x
      → Option Error
      → World Numeric Decimal
      → Option Error × World Numeric Decimal
  unfolding mark_ack exec settle
  after_send handler p (some e) w = (some e, w)
  after_send handler p none w =
      let w1 = logged x (exec x (mark_ack x p.event)) w in
      (none, if p.settled then w1 else logged x (settle x handler p.event) w1)

  unfoldable pub after_persist :
      Option (Handler Decimal)
      → (ℕ → Option Error)
      → TradeResponse
      → Result (Persisted x) × World Numeric Decimal
      → Option Error × World Numeric Decimal
  unfolding after_send
  after_persist handler send resp (err e, w) = (none, w)
  after_persist handler send resp (ok p, w) =
      after_send handler p (send w.tick) (emit (acked (ack_of resp)) (advance w))

  -- One message: the error that ends the stream, if any.
  unfoldable pub deliver :
      Option (Handler Decimal)
      → (ℕ → Option Error)
      → TradeResponse
      → World Numeric Decimal
      → Option Error × World Numeric Decimal
  unfolding persist_trade after_persist
  deliver handler send resp w = after_persist handler send resp (persist_trade x resp w)

  -- The loop over `Recv`.
  unfoldable pub pump :
      Option (Handler Decimal)
      → Session
      → List TradeResponse
      → World Numeric Decimal
      → Error × World Numeric Decimal
  pump handler s [] w = (s.closed_by, w)
  pump handler s (resp ∷ rest) w =
      let (stop, w1) = deliver handler s.send resp w in
      let more = pump handler s rest w1 in elim stop [ some e ↦ (e, w1) | none ↦ more ]

  -- `runTradeStream`, with `*attempt` as an argument and a result.
  unfoldable pub run_trade_stream :
      Option (Handler Decimal)
      → Session
      → ℕ
      → World Numeric Decimal
      → Error × ℕ × World Numeric Decimal
  unfolding pump
  run_trade_stream handler s attempt w = elim s.refused_by [
    | some e ↦ (e, attempt, w)
    | none ↦ let (e, w1) = pump handler s s.messages w in (e, 0, w1)
  ]
