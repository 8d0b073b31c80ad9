-- ===== src/Platform.antt =====
-- What the SDK calls and this repository does not contain: the decimals of `udecimal`, the values and
-- input functions of PostgreSQL, the clock, and how each call of the database and the Core ends. Each
-- is a parameter of the model. The number given to a call's outcome is its place in the run.
use fx_sdk.Common.{ℕ, ℤ, Text, Bool, Option, List}
use fx_sdk.Errors.{Result}
use fx_sdk.Wire.{
  TradeResponse, GetTradesRequest, ReconciliationRequest, ReconciliationResponse,
  SubmitOrderRequest, SubmitOrderResponse, CancelOrderRequest, CancelOrderResponse,
  FilterClientOrdersRequest, OrderInfo, GetOrderBookDepthRequest, GetOrderBookDepthResponse,
  PairInfo,
}
use fx_sdk.Time.Date.{Date}
use fx_sdk.Time.Zone.{Stamp}

-- How a database call ends: it takes effect and is answered, it has no effect and fails, or it takes
-- effect and the answer is lost.
pub data Outcome : Type 0 where
  done refused in_doubt : Outcome

pub record Platform : Type 1 where
  -- `udecimal.Decimal`: `Parse`, `Mul`, `Add`, `Sub`, `Div`, `RoundBank`, `Trunc`, `Cmp`/`Equal`,
  -- `MustFromInt64(n, 0)`
  pub Decimal : Type 0
  pub parse_decimal : Text → Option Decimal
  pub mul : Decimal → Decimal → Decimal
  pub add : Decimal → Decimal → Decimal
  pub sub : Decimal → Decimal → Decimal
  pub div : Decimal → Decimal → Option Decimal
  pub round_bank : ℕ → Decimal → Decimal
  pub trunc : ℕ → Decimal → Decimal
  pub equal : Decimal → Decimal → Bool
  pub from_int : ℕ → Decimal
  -- PostgreSQL: `numeric`, its input and output, the assignment to NUMERIC(28,6), `-`,
  -- `GREATEST(_, 0)`, `=`, and the transfer of a `udecimal.Decimal` to a NUMERIC(28,6) column
  pub Numeric : Type 0
  pub numeric_in : Text → Option Numeric
  pub numeric_out : Numeric → Text
  pub to_scale : Numeric → Option Numeric
  pub numeric_sub : Numeric → Numeric → Numeric
  pub greatest_zero : Numeric → Numeric
  pub numeric_eq : Numeric → Numeric → Bool
  pub numeric_of : Decimal → Option Numeric
  -- PostgreSQL: the input and output of DATE, the text of a BIGINT, `hashint8`, `hashtextextended(_, 0)`, `#`
  pub date_in : Text → Option Date
  pub int_out : ℤ → Text
  pub hash_int8 : ℤ → ℤ
  pub hash_text : Text → ℤ
  pub bit_xor : ℤ → ℤ → ℤ
  -- Go: `time.Parse(time.RFC3339, _)`
  pub parse_rfc3339 : Text → Option Stamp
  -- the clock, in UTC and as `time.Now()` reads on the host, and how each call ends
  pub now : ℕ → Stamp
  pub host_now : ℕ → Stamp
  pub outcome : ℕ → Outcome
  pub submit_order : ℕ → SubmitOrderRequest → Result SubmitOrderResponse
  pub cancel_order : ℕ → CancelOrderRequest → Result CancelOrderResponse
  pub get_trades : ℕ → GetTradesRequest → Result (List TradeResponse)
  pub reconciliation : ℕ → ReconciliationRequest → Result ReconciliationResponse
  pub filter_client_orders : ℕ → FilterClientOrdersRequest → Result (List OrderInfo)
  pub order_book_depth : ℕ → GetOrderBookDepthRequest → Result GetOrderBookDepthResponse
  pub currency_pairs : ℕ → Result (List PairInfo)
