-- ===== src/Recover/Query.antt =====
-- `GetTrades` and `toTrades` of go/v1/trade.go: the Core's trades of a window.

use fx_sdk.Recover.Run.{get_trades_raw}
use fx_sdk.Time.Layout.{format_timestamp, parse_day}
use fx_sdk.Wire.{TradeResponse, get_int, get_text}
use fx_sdk.Errors.{Result, err, invalid_day, ok, partner_id_required}
use fx_sdk.Platform.{Platform}
use fx_sdk.Common.{List, Option, Text, [], false, if◌then◌else◌, is_empty, none, some, to_int8, ◌∷◌}
use fx_sdk.Types.{GetTradesParams, Trade}
use fx_sdk.Time.Date.{Date, next_day}
use fx_sdk.Store.{Action, World, raise}

-- `toTrades`, of one message
abbrev pub trade_of : TradeResponse → Trade
trade_of t = record {
  trade_id = get_int t.id;
  order_id = get_int t.order_id;
  ref_id = get_int t.ref_id;
  order_status = to_int8 (get_int t.order_status);
  side = get_int t.side;
  order_day = get_text t.order_day;
  trading_day = get_text t.trading_day;
  filled_quantity = get_text t.filled_quantity;
  execution_rate = get_text t.execution_rate;
  executed_at = get_text t.executed_at;
  partner_id = get_text t.partner_id;
  trade_type = get_int t.trade_type;
}

-- `toTrades`
unfoldable pub to_trades : List TradeResponse → List Trade
to_trades [] = []
to_trades (t ∷ ts) = trade_of t ∷ to_trades ts

abbrev or_default : Text → Text → Text
or_default given default = if is_empty given then default else given

module _ (x : Platform) where
  open x use {Decimal, Numeric}

  abbrev projected :
      Result (List TradeResponse) × World Numeric Decimal
      → Result (List Trade) × World Numeric Decimal
  projected (err e, w) = (err e, w)
  projected (ok raw, w) = (ok (to_trades raw), w)

  abbrev query_day : GetTradesParams → Option Date → Action x (List Trade)
  query_day p none w = (err (invalid_day p.day), w)
  query_day p (some day) w = projected (
      get_trades_raw x p.partner_id p.day (or_default p.dt_from (format_timestamp day 0))
        (or_default p.dt_to (format_timestamp (next_day day) 0)) false w)

  -- `GetTrades`
  unfoldable pub get_trades_of : Option GetTradesParams → Action x (List Trade)
  unfolding get_trades_raw to_trades parse_day
  get_trades_of none = raise x partner_id_required
  get_trades_of (some p) =
      if is_empty p.partner_id then raise x partner_id_required else query_day p (parse_day p.day)
