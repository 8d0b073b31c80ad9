-- ===== src/Types/Orders.antt =====
-- The parameters, results and events of the order operations (go/v1/types.go).
use fx_sdk.Common.{ℤ, Text, Bool, true, false, eq_ℤ, ◌||◌, if◌then◌else◌, List, []}
use fx_sdk.Types.Codes.{
  OrderStatus, Side, Segment, OrderType, Json, expired, expired_partially, cancelled,
  cancelled_partially,
}

pub record SubmitOrderParams : Type 0 where
  pub side : Side
  pub segment : Segment
  pub partner_id : Text
  pub client_id : Text
  pub client_inn : Text
  pub currency_pair : Text
  pub quantity : Text
  pub limit_rate : Text
  pub min_trade_quantity : Text
  pub account : Json
  pub fee : Json
  pub order_type : OrderType
  pub counterparty_segment : Segment

pub record SubmitOrderResult : Type 0 where
  pub ref_id : ℤ
  pub order_id : ℤ
  pub order_day : Text
  pub status : OrderStatus
  pub cause : Text
  pub filled_quantity : Text
  pub average_rate : Text

pub record CancelOrderParams : Type 0 where
  pub partner_id : Text
  pub client_id : Text
  pub order_id : ℤ
  pub order_day : Text

pub record CancelOrderResult : Type 0 where
  pub success : Bool
  pub remaining_quantity : Text
  pub status : OrderStatus
  pub cause : Text
  pub ref_id : ℤ

pub record FilterClientOrdersParams : Type 0 where
  pub partner_id : Text
  pub client_id : Text
  pub ref_id : ℤ
  pub side : Side
  pub status : OrderStatus
  pub currency_pair : Text
  pub order_day_from : Text
  pub order_day_to : Text
  pub limit : ℤ
  pub offset : ℤ

pub record Order : Type 0 where
  pub order_id : ℤ
  pub side : Side
  pub segment : Segment
  pub status : OrderStatus
  pub currency_pair : Text
  pub quantity : Text
  pub limit_rate : Text
  pub ref_id : ℤ
  pub min_trade_quantity : Text
  pub remaining_quantity : Text
  pub created_at : Text
  pub order_day : Text
  pub expires_at : Text
  pub order_type : OrderType
  pub counterparty_segment : Segment

pub record FilterClientOrdersResult : Type 0 where
  pub orders : List Order

pub record OrderEvent : Type 0 where
  pub ref_id : ℤ
  pub event_type : OrderStatus
  pub event_timestamp : Text
  pub remaining_quantity : Text
  pub partner_id : Text

-- `GetReleaseAmount`: the remaining quantity, if the event gives funds back.
unfoldable pub get_release_amount : OrderEvent → Text × Bool
get_release_amount e =
    if eq_ℤ e.event_type expired
      || eq_ℤ e.event_type expired_partially
      || eq_ℤ e.event_type cancelled
      || eq_ℤ e.event_type cancelled_partially
    then (e.remaining_quantity, true)
    else ([], false)

pub record GetOrderBookDepthParams : Type 0 where
  pub segment : Segment
  pub max_levels : ℤ
  pub client_id : Text
  pub currency_pair : Text
  pub partner_id : Text

pub record PriceLevel : Type 0 where
  pub rate : Text
  pub total_quantity : Text

pub record GetOrderBookDepthResult : Type 0 where
  pub bids : List PriceLevel
  pub asks : List PriceLevel

pub record CurrencyPair : Type 0 where
  pub pair : Text
  pub min_lot : Text
  pub min_trade_quantity : Text
  pub valid_rate_percent : ℤ
  pub nbt_rate : Text
  pub is_active : Bool
