-- ===== src/Trade/Statements.antt =====
-- The SQL statements of go/v1/trade.go, each as a function of the database. A failed cast or a value
-- out of a column's range is an error of the statement, `none`.
use fx_sdk.Time.Zone.{Stamp}
use fx_sdk.Common.{
  ℤ, ◌+◌, Text, if◌then◌else◌, leb, Option, none, some, [], ℕ, Bool, true, false, ◌∷◌, smallint,
}
use fx_sdk.Errors.{database_failed, Result, ok, err, no_rows}
use fx_sdk.Types.{TradeEvent, StringMap, Json, null, object, other, Side, OrderStatus, filled}
use fx_sdk.Platform.{Platform}
use fx_sdk.Time.Date.{Date}
use fx_sdk.Store.{
  TradeKey, Db, OrderRow, find_order, find_trade, update_order, update_trade, TradeRow,
}

-- The scan of a JSONB column into a `map[string]string`; NULL leaves the map empty.
unfoldable pub scan_map : Json → Result StringMap
scan_map null = ok []
scan_map (object m) = ok m
scan_map other = err database_failed

-- What the lookup of a trade's parent order reads.
pub record ParentOrder : Type 0 where
  pub client_id : Text
  pub side : Side
  pub currency_pair : Text
  pub account : StringMap
  pub fee : StringMap

-- `settle_attempts + 1` in a SMALLINT column, which refuses a value past 32767.
unfoldable pub next_attempts : ℕ → Option ℕ
next_attempts n = if leb 32767 n then none else some (n + 1)

abbrev scan_fee : {N : Type 0} → OrderRow N → StringMap → Result StringMap → Result ParentOrder
scan_fee o account (err e) = err e
scan_fee o account (ok fee) = ok (record {
  client_id = o.client_id;
  side = o.side;
  currency_pair = o.currency_pair;
  account = account;
  fee = fee;
})

abbrev scan_account : {N : Type 0} → OrderRow N → Result StringMap → Result ParentOrder
scan_account o (err e) = err e
scan_account o (ok account) = scan_fee o account (scan_map o.fee)

abbrev pub scan_parent : {N : Type 0} → Option (OrderRow N) → Result ParentOrder
scan_parent none = err no_rows
scan_parent (some o) = scan_account o (scan_map o.account)

module _ (x : Platform) where
  open x use {
    Decimal, Numeric, numeric_in, to_scale, numeric_sub, greatest_zero, numeric_of, date_in,
  }

  abbrev pub key_at : ℤ → ℤ → Option Date → Option TradeKey
  key_at trade order none = none
  key_at trade order (some day) =
      some (record { trade_id = trade; order_id = order; trading_day = day })

  -- The key that a statement's parameters name, if the day is a date.
  abbrev pub event_key : TradeEvent Decimal → Option TradeKey
  event_key e = key_at e.trade_id e.order_id (date_in e.trading_day)

  -- A NUMERIC(28,6) column written from a text.
  abbrev pub numeric_column : Text → Option Numeric
  numeric_column s = elim (numeric_in s) [ none ↦ none | some n ↦ to_scale n ]

  unfoldable pub lookup_at : Option Date → ℤ → Db Numeric → Result ParentOrder
  unfolding scan_map
  lookup_at none ref d = err database_failed
  lookup_at (some day) ref d = scan_parent (find_order day ref d.orders)

  -- `SELECT client_id, side, currency_pair, account, fee FROM client_orders WHERE order_day = $1 AND ref_id = $2`
  unfoldable pub lookup_order : Text → ℤ → Db Numeric → Result ParentOrder
  unfolding lookup_at
  lookup_order day ref d = lookup_at (date_in day) ref d

  -- `COALESCE($1, NOW())`
  abbrev coalesce : Option Stamp → Stamp → Stamp
  coalesce none now = now
  coalesce (some t) now = t

  -- The row that a trade is stored as: not acked, not settled, never attempted.
  unfoldable pub new_row : TradeEvent Decimal → ℤ → Option Stamp → Stamp → Option (TradeRow Numeric)
  new_row e ref executed_at now = elim (event_key e) [
    | none ↦ none
    | some key ↦ elim (numeric_column e.filled_quantity) [
      | none ↦ none
      | some filled ↦ elim (numeric_column e.execution_rate) [
        | none ↦ none
        | some rate ↦ elim (numeric_of e.settlement) [
          | none ↦ none
          | some settlement ↦ elim (numeric_of e.fee) [
            | none ↦ none
            | some fee ↦ elim (smallint e.trade_type) [
              | none ↦ none
              | some kind ↦ some (record {
                key = key;
                executed_at = coalesce executed_at now;
                ref_id = ref;
                side = e.side;
                trade_type = kind;
                settle_attempts = 0;
                filled_quantity = filled;
                execution_rate = rate;
                settlement = settlement;
                fee = fee;
                partner_id = e.partner_id;
                client_id = e.client_id;
                ack = false;
                settled = false;
                settle_error = none;
              })
            ]
          ]
        ]
      ]
    ]
  ]

  -- With the row of the same key, if there is one.
  abbrev pub insert_found :
      TradeRow Numeric → Db Numeric → Option (TradeRow Numeric) → Option (ℕ × Db Numeric)
  insert_found row d none = some (1, record d { trades = row ∷ d.trades })
  insert_found row d (some old) = some (0, d)

  unfoldable pub insert_row : Option (TradeRow Numeric) → Db Numeric → Option (ℕ × Db Numeric)
  insert_row none d = none
  insert_row (some row) d = insert_found row d (find_trade row.key d.trades)

  -- `INSERT INTO client_trades … ON CONFLICT (trade_id, order_id, trading_day) DO NOTHING`, with the
  -- number of rows that it stored.
  unfoldable pub insert_trade :
      TradeEvent Decimal → ℤ → Option Stamp → Stamp → Db Numeric → Option (ℕ × Db Numeric)
  unfolding insert_row new_row
  insert_trade e ref executed_at now d = insert_row (new_row e ref executed_at now) d

  abbrev pub settled_of : Option (TradeRow Numeric) → Result Bool
  settled_of none = err no_rows
  settled_of (some r) = ok r.settled

  unfoldable pub settled_at : Option TradeKey → Db Numeric → Result Bool
  settled_at none d = err database_failed
  settled_at (some k) d = settled_of (find_trade k d.trades)

  -- `SELECT settled FROM client_trades WHERE …`
  unfoldable pub read_settled : TradeEvent Decimal → Db Numeric → Result Bool
  unfolding settled_at
  read_settled e d = settled_at (event_key e) d

  -- `GREATEST(remaining_quantity - $2::numeric, 0)` into its column
  unfoldable pub decrement : Numeric → Text → Option Numeric
  decrement remaining filled = elim (numeric_in filled) [
    | none ↦ none
    | some n ↦ to_scale (greatest_zero (numeric_sub remaining n))
  ]

  unfoldable pub fill_found :
      Date → ℤ → OrderStatus → Option Numeric → Db Numeric → Option (ℕ × Db Numeric)
  fill_found day ref status none d = none
  fill_found day ref status (some left) d = some (
    1,
    record d {
      orders =
          update_order day ref (λ o. record o { status = status; remaining_quantity = left })
            d.orders;
    },
  )

  unfoldable pub fill_row :
      Date
      → ℤ
      → TradeEvent Decimal
      → Db Numeric
      → Option (OrderRow Numeric)
      → Option (ℕ × Db Numeric)
  fill_row day ref e d none = some (0, d)
  fill_row day ref e d (some o) =
      fill_found day ref e.order_status (decrement o.remaining_quantity e.filled_quantity) d

  unfoldable pub fill_at :
      Option Date → ℤ → TradeEvent Decimal → Db Numeric → Option (ℕ × Db Numeric)
  unfolding fill_row fill_found decrement
  fill_at none ref e d = none
  fill_at (some day) ref e d = fill_row day ref e d (find_order day ref d.orders)

  -- `UPDATE client_orders SET status = $1, remaining_quantity = GREATEST(remaining_quantity -
  -- $2::numeric, 0) WHERE order_day = $3 AND ref_id = $4`, with the number of rows changed: one, if
  -- there is such an order, since the pair is the table's primary key.
  unfoldable pub fill_order : Text → ℤ → TradeEvent Decimal → Db Numeric → Option (ℕ × Db Numeric)
  unfolding fill_at
  fill_order day ref e d = fill_at (date_in day) ref e d

  unfoldable pub update_at :
      Option TradeKey
      → (TradeRow Numeric → TradeRow Numeric)
      → Db Numeric
      → Option (Unit {0} × Db Numeric)
  update_at none f d = none
  update_at (some k) f d = some (tt, record d { trades = update_trade k f d.trades })

  -- `UPDATE client_trades SET ack = TRUE`
  unfoldable pub mark_ack : TradeEvent Decimal → Db Numeric → Option (Unit {0} × Db Numeric)
  unfolding update_at
  mark_ack e d = update_at (event_key e) (λ r. record r { ack = true }) d

  -- `UPDATE client_trades SET settled = TRUE, settle_error = NULL`
  unfoldable pub mark_settled_row : TradeEvent Decimal → Db Numeric → Option (Unit {0} × Db Numeric)
  unfolding update_at
  mark_settled_row e d =
      update_at (event_key e) (λ r. record r { settled = true; settle_error = none }) d

  abbrev pub fail_row : Text → ℕ → TradeRow Numeric → TradeRow Numeric
  fail_row why n r = record r { settle_attempts = n; settle_error = some why }

  unfoldable pub fail_with :
      TradeKey → Text → Db Numeric → Option ℕ → Option (Unit {0} × Db Numeric)
  fail_with k why d none = none
  fail_with k why d (some n) = update_at (some k) (fail_row why n) d

  unfoldable pub fail_found :
      TradeKey → Text → Db Numeric → Option (TradeRow Numeric) → Option (Unit {0} × Db Numeric)
  fail_found k why d none = some (tt, d)
  fail_found k why d (some r) = fail_with k why d (next_attempts r.settle_attempts)

  unfoldable pub failure_at : Option TradeKey → Text → Db Numeric → Option (Unit {0} × Db Numeric)
  unfolding fail_found fail_with update_at next_attempts
  failure_at none why d = none
  failure_at (some k) why d = fail_found k why d (find_trade k d.trades)

  -- `UPDATE client_trades SET settle_attempts = settle_attempts + 1, settle_error = $1`
  unfoldable pub record_failure :
      TradeEvent Decimal → Text → Db Numeric → Option (Unit {0} × Db Numeric)
  unfolding failure_at
  record_failure e why d = failure_at (event_key e) why d
