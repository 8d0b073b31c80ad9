-- ===== src/Order/Query.antt =====
-- The calls that only read: `FilterClientOrders` and `GetOrderBookDepth` of go/v1/order.go, and
-- `GetCurrencyPairs` of go/v1/partner.go.

use fx_sdk.Order.Check.{is_segment}
use fx_sdk.Time.Layout.{format_day}
use fx_sdk.Errors.{
  Result, client_id_required, err, guard, ok, partner_id_required, segment_required, ◌>>◌, context,
}
use fx_sdk.Platform.{Platform}
use fx_sdk.Common.{
  List, Option, Text, codes, eq_ℤ, if◌then◌else◌, is_empty, ltb_ℤ, map, none, not, pos, some,
  to_int8, ℕ, ℤ,
}
use fx_sdk.Wire.{
  DepthLevel, FilterClientOrdersRequest, GetOrderBookDepthRequest, OrderInfo, PairInfo, get_bool,
  get_int, get_text,
}
use fx_sdk.Time.Date.{Date, next_day}
use fx_sdk.Types.{
  CurrencyPair, FilterClientOrdersParams, FilterClientOrdersResult, GetOrderBookDepthParams,
  GetOrderBookDepthResult, Order, PriceLevel,
}
use fx_sdk.Store.{Action, advance}

-- A filter that is left out at its zero value.
abbrev nonzero : ℤ → Option ℤ
nonzero n = if eq_ℤ n (pos 0) then none else some n

abbrev nonempty : Text → Option Text
nonempty t = if is_empty t then none else some t

abbrev positive : ℤ → Option ℤ
positive n = if ltb_ℤ (pos 0) n then some n else none

-- The first and the last day, from the clock of the host where they are left empty.
abbrev pub since_day : Text → Date → Text
since_day from day_now = if is_empty from then format_day day_now else from

abbrev pub until_day : Text → Date → Text
until_day to day_now = if is_empty to then format_day (next_day day_now) else to

-- The request does not carry `RefId`.
abbrev pub filter_request : FilterClientOrdersParams → Date → FilterClientOrdersRequest
filter_request p day_now = record {
  ref_id = none;
  side = nonzero p.side;
  status = nonzero p.status;
  limit = positive p.limit;
  offset = positive p.offset;
  client_id = some p.client_id;
  currency_pair = nonempty p.currency_pair;
  order_day_from = some (since_day p.order_day_from day_now);
  order_day_to = some (until_day p.order_day_to day_now);
  partner_id = some p.partner_id;
}

unfoldable pub check_filter : FilterClientOrdersParams → Date → Result FilterClientOrdersRequest
check_filter p day_now = do
  guard (not (is_empty p.client_id)) client_id_required
  guard (not (is_empty p.partner_id)) partner_id_required
  ok (filter_request p day_now)

abbrev pub order_of : OrderInfo → Order
order_of o = record {
  order_id = get_int o.order_id;
  side = get_int o.side;
  segment = get_int o.segment;
  status = to_int8 (get_int o.status);
  currency_pair = get_text o.currency_pair;
  quantity = get_text o.quantity;
  limit_rate = get_text o.limit_rate;
  ref_id = get_int o.ref_id;
  min_trade_quantity = get_text o.min_trade_quantity;
  remaining_quantity = get_text o.remaining_quantity;
  created_at = get_text o.created_at;
  order_day = get_text o.order_day;
  expires_at = get_text o.expires_at;
  order_type = get_int o.order_type;
  counterparty_segment = get_int o.counterparty_segment;
}

abbrev pub level_of : DepthLevel → PriceLevel
level_of l = record { rate = get_text l.rate; total_quantity = get_text l.total_quantity }

abbrev pub pair_of : PairInfo → CurrencyPair
pair_of p = record {
  pair = get_text p.pair;
  min_lot = get_text p.min_lot;
  min_trade_quantity = get_text p.min_trade_quantity;
  valid_rate_percent = get_int p.valid_rate_percent;
  nbt_rate = get_text p.nbt_rate;
  is_active = get_bool p.is_active;
}

unfoldable pub check_depth : GetOrderBookDepthParams → Result GetOrderBookDepthRequest
check_depth p = do
  guard (not (is_empty p.client_id)) client_id_required
  guard (is_segment p.segment) segment_required
  guard (not (is_empty p.partner_id)) partner_id_required
  ok (record {
    segment = some p.segment;
    max_levels = some p.max_levels;
    client_id = some p.client_id;
    currency_pair = some p.currency_pair;
    partner_id = some p.partner_id;
  })

abbrev answer : {Resp Out : Type 0} → Text → (Resp → Out) → Result Resp → Result Out
answer words read (err e) = err (context words e)
answer words read (ok resp) = ok (read resp)

module _ (x : Platform) where
  open x use {Decimal, Numeric, host_now}

  -- A call that sends a request and reads the answer.
  abbrev ask :
      {Req Resp Out : Type 0}
      → Text
      → (Resp → Out)
      → (ℕ → Req → Result Resp)
      → Result Req
      → Action x Out
  ask words read call (err e) w = (err e, w)
  ask words read call (ok req) w = (answer words read (call w.tick req), advance w)

  -- `FilterClientOrders`
  unfoldable pub filter_client_orders :
      Option FilterClientOrdersParams → Action x FilterClientOrdersResult
  unfolding check_filter
  filter_client_orders none w = (err client_id_required, w)
  filter_client_orders (some p) w =
      ask (codes "filter client orders") (λ os. record { orders = map order_of os })
        x.filter_client_orders (check_filter p (host_now w.tick).date) w

  -- `GetOrderBookDepth`
  unfoldable pub get_order_book_depth :
      Option GetOrderBookDepthParams → Action x GetOrderBookDepthResult
  unfolding check_depth
  get_order_book_depth none w = (err client_id_required, w)
  get_order_book_depth (some p) w =
      ask (codes "get order book depth")
        (λ d. record { bids = map level_of d.bids; asks = map level_of d.asks }) x.order_book_depth
        (check_depth p) w

  -- `GetCurrencyPairs`
  unfoldable pub get_currency_pairs : Action x (List CurrencyPair)
  get_currency_pairs w =
      ask {Req = Unit {0}} (codes "get currency pairs") (map pair_of) (λ n _. x.currency_pairs n)
        (ok tt) w
