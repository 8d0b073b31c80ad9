-- ===== src/Types/Trades.antt =====
-- Trades as the Core reports them and as the partner stores them (go/v1/types.go).
use fx_sdk.Common.{ℕ, ℤ, Text, Bool}
use fx_sdk.Types.Codes.{OrderStatus, Side, TradeType, StringMap}

-- A trade joined to its parent order, over the decimals of `udecimal`.
pub record TradeEvent (Decimal : Type 0) : Type 0 where
  pub trade_id : ℤ
  pub order_id : ℤ
  pub order_status : OrderStatus
  pub trading_day : Text
  pub filled_quantity : Text
  pub execution_rate : Text
  pub executed_at : Text
  pub partner_id : Text
  pub client_id : Text
  pub currency_pair : Text
  pub side : Side
  pub trade_type : TradeType
  pub account : StringMap
  pub fee_config : StringMap
  pub settlement : Decimal
  pub fee : Decimal

pub record Trade : Type 0 where
  pub trade_id : ℤ
  pub order_id : ℤ
  pub ref_id : ℤ
  pub order_status : OrderStatus
  pub side : Side
  pub order_day : Text
  pub trading_day : Text
  pub filled_quantity : Text
  pub execution_rate : Text
  pub executed_at : Text
  pub partner_id : Text
  pub trade_type : TradeType

pub record LocalTrade : Type 0 where
  pub trade_id : ℤ
  pub order_id : ℤ
  pub ref_id : ℤ
  pub side : Side
  pub filled_quantity : Text
  pub execution_rate : Text
  pub executed_at : Text
  pub trade_type : TradeType
  pub ack : Bool
  pub settled : Bool
  pub settle_attempts : ℕ
  pub settle_error : Text
