-- ===== src/Money.antt =====
-- Decimal checks and the settlement of a trade: go/v1/decimal.go, go/pkg/fee.go and `TradeEvent.Cal`
-- of go/v1/types.go, over the decimals of `udecimal`.
use fx_sdk.Common.{ℕ, Text, codes, eq_text, if◌then◌else◌, eq_ℤ, Option, none, some, [], ◌∷◌}
use fx_sdk.Errors.{
  malformed_decimal, division_failed, decimal_precision, Result, ok, err, ◌>>=◌, wrap,
}
use fx_sdk.Types.{TradeEvent, StringMap, buy}
use fx_sdk.Platform.{Platform}

-- A lookup in a `map[string]string`.
unfoldable pub lookup : Text → StringMap → Option Text
lookup k [] = none
lookup k ((j, v) ∷ m) = if eq_text j k then some v else lookup k m

-- `maxDecimalPlaces`
abbrev pub max_decimal_places : ℕ
max_decimal_places = 6

module _ (x : Platform) where
  open x use {Decimal, parse_decimal, mul, add, sub, div, round_bank, trunc, equal, from_int}

  abbrev or_malformed : Option Decimal → Result Decimal
  or_malformed none = err malformed_decimal
  or_malformed (some d) = ok d

  -- `udecimal.Parse`, with its error
  abbrev pub parse : Text → Result Decimal
  parse s = or_malformed (parse_decimal s)

  -- `checkDecimal`
  unfoldable pub check_decimal : Text → Text → Result (Unit {0})
  check_decimal field value = do
    d ← wrap field (parse value)
    if equal (trunc max_decimal_places d) d then ok tt else err (decimal_precision field value)

  abbrev or_division_failed : Option Decimal → Result Decimal
  or_division_failed none = err division_failed
  or_division_failed (some d) = ok (round_bank 6 d)

  -- `pkg.Percentage`
  unfoldable pub percentage : Decimal → Decimal → Result Decimal
  percentage amount percent = or_division_failed (div (mul amount percent) (from_int 100))

  abbrev fixed_of : Option Text → Text
  fixed_of none = codes "0"
  fixed_of (some t) = t

  -- `Cal`: the event with its fee and settlement.
  unfoldable pub cal : TradeEvent Decimal → Result (TradeEvent Decimal)
  unfolding percentage lookup
  cal e = do
    qty ← wrap (codes "parse filled_quantity") (parse e.filled_quantity)
    rate ← wrap (codes "parse execution_rate") (parse e.execution_rate)
    let m = mul qty rate
    percent ←
        wrap (codes "parse fee.fixed") (parse (fixed_of (lookup (codes "fixed") e.fee_config)))
    charged ← wrap (codes "compute fee") (percentage m percent)
    if eq_ℤ e.side buy
        then ok (record e { fee = charged; settlement = round_bank 6 (add m charged) })
        else ok (record e { fee = charged; settlement = round_bank 6 (sub m charged) })
