-- ===== src/Store/Tables.antt =====
-- The tables of go/db.sql. A table is the list of its rows, the newest first; the columns
-- `updated_at`, which nothing reads, are left out.
use fx_sdk.Common.{
  ℕ, ℤ, Text, Bool, true, ◌&&◌, ◌≡◌, if◌then◌else◌, eq_ℤ, eq_ℤ_iff, arith, Option, none, some, List,
  [], ◌∷◌, ◌↔◌,
}
use fx_sdk.Types.{OrderStatus, Side, Segment, OrderType, TradeType, Json, ReconcileInfo}
use fx_sdk.Time.Date.{Date, eq_date, eq_date-eq}
use fx_sdk.Time.Zone.{Stamp}

-- `client_orders`
pub record OrderRow (Numeric : Type 0) : Type 0 where
  pub submitted_at : Stamp
  pub order_day : Date
  pub ref_id : ℤ
  pub order_id : Option ℤ
  pub side : Side
  pub segment : Segment
  pub status : OrderStatus
  pub order_type : OrderType
  pub counterparty_segment : Segment
  pub quantity : Numeric
  pub limit_rate : Option Numeric
  pub remaining_quantity : Numeric
  pub min_trade_quantity : Option Numeric
  pub currency_pair : Text
  pub partner_id : Text
  pub client_id : Text
  pub client_inn : Text
  pub cause : Option Text
  pub account : Json
  pub fee : Json

-- The primary key of `client_trades`.
pub record TradeKey : Type 0 where
  pub trade_id : ℤ
  pub order_id : ℤ
  pub trading_day : Date

-- `client_trades`
pub record TradeRow (Numeric : Type 0) : Type 0 where
  pub key : TradeKey
  pub executed_at : Stamp
  pub ref_id : ℤ
  pub side : Side
  pub trade_type : TradeType
  pub settle_attempts : ℕ
  pub filled_quantity : Numeric
  pub execution_rate : Numeric
  pub settlement : Numeric
  pub fee : Numeric
  pub partner_id : Text
  pub client_id : Text
  pub ack : Bool
  pub settled : Bool
  pub settle_error : Option Text

-- `reconciliations`
pub record ReconRow : Type 0 where
  pub dt : Date
  pub hour : ℤ
  pub is_matched : Bool
  pub info : ReconcileInfo
  pub is_done : Bool

pub record Db (Numeric : Type 0) : Type 0 where
  pub orders : List (OrderRow Numeric)
  pub trades : List (TradeRow Numeric)
  pub recons : List ReconRow
  -- the sequence behind the BIGSERIAL `ref_id`
  pub next_ref : ℤ

abbrev pub eq_key : TradeKey → TradeKey → Bool
eq_key a b =
    eq_ℤ a.trade_id b.trade_id
    && (eq_ℤ a.order_id b.order_id && eq_date a.trading_day b.trading_day)

pub eq_key_iff : (a b : TradeKey) → (eq_key a b ≡ true) ↔ (a ≡ b)
eq_key_iff a b = ground (
  arith,
  eq_ℤ_iff a.trade_id b.trade_id,
  eq_ℤ_iff a.order_id b.order_id,
  eq_date-eq a.trading_day b.trading_day,
)

module _ {N : Type 0} where
  -- `WHERE trading_day = … AND trade_id = … AND order_id = …`
  unfoldable pub find_trade : TradeKey → List (TradeRow N) → Option (TradeRow N)
  find_trade k [] = none
  find_trade k (r ∷ rs) = if eq_key r.key k then some r else find_trade k rs

  unfoldable pub update_trade :
      TradeKey → (TradeRow N → TradeRow N) → List (TradeRow N) → List (TradeRow N)
  update_trade k f [] = []
  update_trade k f (r ∷ rs) = (if eq_key r.key k then f r else r) ∷ update_trade k f rs

  -- `WHERE order_day = … AND ref_id = …`
  abbrev pub is_order : Date → ℤ → OrderRow N → Bool
  is_order day ref o = eq_date o.order_day day && eq_ℤ o.ref_id ref

  unfoldable pub find_order : Date → ℤ → List (OrderRow N) → Option (OrderRow N)
  find_order day ref [] = none
  find_order day ref (o ∷ os) = if is_order day ref o then some o else find_order day ref os

  unfoldable pub update_order :
      Date → ℤ → (OrderRow N → OrderRow N) → List (OrderRow N) → List (OrderRow N)
  update_order day ref f [] = []
  update_order day ref f (o ∷ os) =
      (if is_order day ref o then f o else o) ∷ update_order day ref f os
