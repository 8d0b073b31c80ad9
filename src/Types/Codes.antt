-- ===== src/Types/Codes.antt =====
-- The codes of go/v1/types.go with their constants. A code is the integer that Go stores, since the
-- Core may send one that has no constant.
use fx_sdk.Common.{ℤ, pos, Text, List}

abbrev pub OrderStatus : Type 0
OrderStatus = ℤ

abbrev pub unknown : OrderStatus
unknown = pos 0

abbrev pub pending : OrderStatus
pending = pos 1

abbrev pub filled_partially : OrderStatus
filled_partially = pos 2

abbrev pub filled : OrderStatus
filled = pos 3

abbrev pub cancelled : OrderStatus
cancelled = pos 4

abbrev pub expired : OrderStatus
expired = pos 5

abbrev pub failed : OrderStatus
failed = pos 6

abbrev pub cancelled_partially : OrderStatus
cancelled_partially = pos 7

abbrev pub expired_partially : OrderStatus
expired_partially = pos 8

abbrev pub rejected : OrderStatus
rejected = pos 9

abbrev pub duplicate : OrderStatus
duplicate = pos 10

abbrev pub Side : Type 0
Side = ℤ

abbrev pub buy : Side
buy = pos 1

abbrev pub sell : Side
sell = pos 2

abbrev pub Segment : Type 0
Segment = ℤ

abbrev pub any_counterparty : Segment
any_counterparty = pos 0

abbrev pub retail : Segment
retail = pos 1

abbrev pub corporate : Segment
corporate = pos 2

abbrev pub treasury : Segment
treasury = pos 3

abbrev pub OrderType : Type 0
OrderType = ℤ

abbrev pub limit_order : OrderType
limit_order = pos 1

abbrev pub market_order : OrderType
market_order = pos 2

abbrev pub TradeType : Type 0
TradeType = ℤ

abbrev pub same_partner : TradeType
same_partner = pos 1

abbrev pub same_partner_treasury : TradeType
same_partner_treasury = pos 2

abbrev pub cross_partner : TradeType
cross_partner = pos 3

-- `map[string]string`, and what a JSONB column of a parent order can hold: NULL, an object of strings,
-- or a value that does not fit such a map.
abbrev pub StringMap : Type 0
StringMap = List (Text × Text)

pub data Json : Type 0 where
  null : Json
  object : StringMap → Json
  other : Json
