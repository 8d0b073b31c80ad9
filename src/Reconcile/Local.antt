-- ===== src/Reconcile/Local.antt =====
-- `localTrades` of go/v1/reconcile.go: the stored trades of an hour, by trade and order id.

use fx_sdk.Time.Zone.{in_time_zone, in_window}
use fx_sdk.Reconcile.Window.{format_stamp}
use fx_sdk.Reconcile.Run.{covered}
use fx_sdk.Errors.{Result, database_failed, err, ok}
use fx_sdk.Platform.{Platform}
use fx_sdk.Types.{LocalTrade}
use fx_sdk.Time.Date.{Date}
use fx_sdk.Common.{
  Bool, List, Option, Text, [], codes, eq_ℤ, if◌then◌else◌, none, some, ℕ, ℤ, ◌&&◌, ◌∷◌,
}
use fx_sdk.Store.{Action, Db, TradeRow, annotate, query}

-- `local[tradeKey{lt.TradeId, lt.OrderId}]`, in a map that is the list of its values.
abbrev pub is_local : ℤ → ℤ → LocalTrade → Bool
is_local trade order lt = eq_ℤ lt.trade_id trade && eq_ℤ lt.order_id order

unfoldable pub find_local : ℤ → ℤ → List LocalTrade → Option LocalTrade
find_local trade order [] = none
find_local trade order (lt ∷ m) =
    if is_local trade order lt then some lt else find_local trade order m

-- An assignment to the map replaces the value of its key.
unfoldable pub put_local : LocalTrade → List LocalTrade → List LocalTrade
put_local lt [] = lt ∷ []
put_local lt (old ∷ m) =
    let rest = put_local lt m in if is_local lt.trade_id lt.order_id old then lt ∷ m else old ∷ rest

module _ (x : Platform) where
  open x use {Decimal, Numeric, date_in, numeric_out}

  -- `COALESCE(settle_error, '')`
  abbrev error_text : Option Text → Text
  error_text none = []
  error_text (some t) = t

  -- The columns of the query, the execution time as the clock of the zone shows it.
  abbrev pub local_of : TradeRow Numeric → LocalTrade
  local_of r = record {
    trade_id = r.key.trade_id;
    order_id = r.key.order_id;
    ref_id = r.ref_id;
    side = r.side;
    filled_quantity = numeric_out r.filled_quantity;
    execution_rate = numeric_out r.execution_rate;
    executed_at = format_stamp (in_time_zone r.executed_at);
    trade_type = r.trade_type;
    ack = r.ack;
    settled = r.settled;
    settle_attempts = r.settle_attempts;
    settle_error = error_text r.settle_error;
  }

  -- The rows that the query returns.
  unfoldable pub covered_rows : Date → ℕ → List (TradeRow Numeric) → List (TradeRow Numeric)
  unfolding in_window
  covered_rows day hour [] = []
  covered_rows day hour (r ∷ rs) =
      let rest = covered_rows day hour rs in if covered x day hour r then r ∷ rest else rest

  -- The loop over the rows.
  unfoldable pub collect : List (TradeRow Numeric) → List LocalTrade → List LocalTrade
  unfolding put_local
  collect [] m = m
  collect (r ∷ rs) m = collect rs (put_local (local_of r) m)

  abbrev local_rows : Option Date → ℕ → Db Numeric → Result (List LocalTrade)
  local_rows none hour d = err database_failed
  local_rows (some day) hour d = ok (collect (covered_rows day hour d.trades) [])

  -- `localTrades`
  unfoldable pub local_trades : Text → ℕ → Action x (List LocalTrade)
  unfolding collect covered_rows query
  local_trades day hour =
      annotate x (codes "query local trades") (query x (local_rows (date_in day) hour))
