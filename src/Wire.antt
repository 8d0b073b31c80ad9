-- ===== src/Wire.antt =====
-- The messages of go/forexv1 that the SDK builds and reads. A proto field is optional, and its getter
-- gives the zero value where it is absent.
use fx_sdk.Common.{ℤ, pos, Text, Bool, false, Option, none, some, List, []}

-- The generated getters: the field, or its type's zero value.
abbrev pub get_int : Option ℤ → ℤ
get_int none = pos 0
get_int (some n) = n

abbrev pub get_text : Option Text → Text
get_text none = []
get_text (some t) = t

abbrev pub get_bool : Option Bool → Bool
get_bool none = false
get_bool (some b) = b

pub record TradeResponse : Type 0 where
  pub id : Option ℤ
  pub ref_id : Option ℤ
  pub order_id : Option ℤ
  pub order_status : Option ℤ
  pub side : Option ℤ
  pub order_day : Option Text
  pub trading_day : Option Text
  pub filled_quantity : Option Text
  pub execution_rate : Option Text
  pub executed_at : Option Text
  pub partner_id : Option Text
  pub trade_type : Option ℤ

pub record TradeRequest : Type 0 where
  pub side : Option ℤ
  pub trade_id : Option ℤ
  pub trading_day : Option Text
  pub partner_id : Option Text

pub record ReconciliationRequest : Type 0 where
  pub trading_day : Option Text
  pub dt_from : Option Text
  pub dt_to : Option Text
  pub partner_id : Option Text

pub record ReconciliationResponse : Type 0 where
  pub hash_check : Option ℤ
  pub hash_v2 : Option ℤ
  pub trade_count : Option ℤ

pub record GetTradesRequest : Type 0 where
  pub trading_day : Option Text
  pub dt_from : Option Text
  pub dt_to : Option Text
  pub partner_id : Option Text
  pub is_reconciliation : Option Bool

pub record SubmitOrderRequest : Type 0 where
  pub ref_id : Option ℤ
  pub side : Option ℤ
  pub segment : Option ℤ
  pub client_id : Option Text
  pub client_inn : Option Text
  pub currency_pair : Option Text
  pub quantity : Option Text
  pub limit_rate : Option Text
  pub order_day : Option Text
  pub min_trade_quantity : Option Text
  pub partner_id : Option Text
  pub counterparty_segment : Option ℤ
  pub order_type : Option ℤ

pub record SubmitOrderResponse : Type 0 where
  pub status : Option ℤ
  pub cause : Option Text
  pub filled_quantity : Option Text
  pub average_rate : Option Text
  pub order_id : Option ℤ

pub record CancelOrderRequest : Type 0 where
  pub client_id : Option Text
  pub order_id : Option ℤ
  pub order_day : Option Text
  pub partner_id : Option Text

pub record CancelOrderResponse : Type 0 where
  pub ref_id : Option ℤ
  pub order_status : Option ℤ
  pub success : Option Bool
  pub remaining_quantity : Option Text
  pub cause : Option Text

pub record SubscribeOrderEventsResponse : Type 0 where
  pub ref_id : Option ℤ
  pub event_type : Option ℤ
  pub event_timestamp : Option Text
  pub remaining_quantity : Option Text
  pub order_day : Option Text
  pub partner_id : Option Text

pub record FilterClientOrdersRequest : Type 0 where
  pub ref_id : Option ℤ
  pub side : Option ℤ
  pub status : Option ℤ
  pub limit : Option ℤ
  pub offset : Option ℤ
  pub client_id : Option Text
  pub currency_pair : Option Text
  pub order_day_from : Option Text
  pub order_day_to : Option Text
  pub partner_id : Option Text

pub record OrderInfo : Type 0 where
  pub order_id : Option ℤ
  pub ref_id : Option ℤ
  pub side : Option ℤ
  pub segment : Option ℤ
  pub status : Option ℤ
  pub currency_pair : Option Text
  pub quantity : Option Text
  pub limit_rate : Option Text
  pub min_trade_quantity : Option Text
  pub remaining_quantity : Option Text
  pub created_at : Option Text
  pub order_day : Option Text
  pub counterparty_segment : Option ℤ
  pub order_type : Option ℤ
  pub expires_at : Option Text

pub record GetOrderBookDepthRequest : Type 0 where
  pub segment : Option ℤ
  pub max_levels : Option ℤ
  pub client_id : Option Text
  pub currency_pair : Option Text
  pub partner_id : Option Text

-- `PriceLevel`
pub record DepthLevel : Type 0 where
  pub rate : Option Text
  pub total_quantity : Option Text

pub record GetOrderBookDepthResponse : Type 0 where
  pub bids : List DepthLevel
  pub asks : List DepthLevel

-- `CurrencyPair`
pub record PairInfo : Type 0 where
  pub pair : Option Text
  pub min_lot : Option Text
  pub min_trade_quantity : Option Text
  pub valid_rate_percent : Option ℤ
  pub nbt_rate : Option Text
  pub is_active : Option Bool
