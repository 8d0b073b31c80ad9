-- ===== src/Order/Statements.antt =====
-- The SQL statements of go/v1/order.go, each as a function of the database. A failed cast or a value
-- out of a column's range is an error of the statement, `none`.

use fx_sdk.Trade.Statements.{numeric_column}
use fx_sdk.Time.Layout.{format_day}
use fx_sdk.Time.Zone.{Stamp, earlier, in_time_zone}
use fx_sdk.Errors.{Result, database_failed, err, ok}
use fx_sdk.Platform.{Platform}
use fx_sdk.Types.{OrderStatus, SubmitOrderParams, pending}
use fx_sdk.Store.{Db, OrderRow, find_order, update_order}
use fx_sdk.Time.Date.{Date, eq_date, prev_day}
use fx_sdk.Order.Check.{Checked}
use fx_sdk.Common.{
  Bool, List, Option, Text, [], eq_text, eq_ℤ, false, if◌then◌else◌, leb, ltb, negsuc, none, pos,
  some, true, ℤ, ◌&&◌, ◌+◌, ◌-◌, ◌^◌, ◌||◌, ◌∷◌, smallint,
}

infixl 5 ◌>>=◌
abbrev pub ◌>>=◌ : {A B : Type 0} → Option A → (A → Option B) → Option B
none >>= f = none
some a >>= f = f a

-- The value after `n` of a BIGSERIAL column, whose sequence ends at 2^63 - 1.
unfoldable pub next_serial : ℤ → Option ℤ
next_serial (pos n) = if ltb n (2 ^ 63) then some (pos (n + 1)) else none
next_serial (negsuc n) = none

-- `NOW() - INTERVAL '1 minutes'`
unfoldable pub minus_minute : Stamp → Stamp
minus_minute t =
    if leb 60 t.secs
    then record { date = t.date; secs = t.secs - 60 }
    else record { date = prev_day t.date; secs = t.secs + 86400 - 60 }

module _ (x : Platform) where
  open x use {Decimal, Numeric, numeric_in, numeric_eq, to_scale, date_in}

  abbrev pub optional_with : (Text → Option Numeric) → Option Text → Option (Option Numeric)
  optional_with f none = some none
  optional_with f (some t) = f t >>= λ n. some (some n)

  -- `a IS NOT DISTINCT FROM b`
  abbrev pub not_distinct : Option Numeric → Option Numeric → Bool
  not_distinct none none = true
  not_distinct (some a) (some b) = numeric_eq a b
  not_distinct _ _ = false

  -- The parameters of the probe for a duplicate, as the database reads them.
  pub record Probe : Type 0 where
    pub side : ℤ
    pub limit_rate : Option Numeric
    pub quantity : Numeric

  abbrev pub probe_of : SubmitOrderParams → Checked → Option Probe
  probe_of p c = do
    side ← smallint p.side
    rate ← optional_with numeric_in c.limit_rate
    quantity ← numeric_in p.quantity
    some (record { side = side; limit_rate = rate; quantity = quantity })

  -- The same order, submitted today and less than a minute ago.
  unfoldable pub is_repeat : SubmitOrderParams → Checked → Probe → Stamp → OrderRow Numeric → Bool
  unfolding in_time_zone minus_minute earlier
  is_repeat p c q now o =
      eq_date o.order_day (in_time_zone now).date
      && earlier (minus_minute now) o.submitted_at
      && eq_text o.partner_id p.partner_id
      && eq_text o.client_id p.client_id
      && eq_ℤ o.side q.side
      && not_distinct o.limit_rate q.limit_rate
      && numeric_eq o.quantity q.quantity
      && eq_text o.currency_pair p.currency_pair
      && eq_ℤ o.order_type c.order_type

  unfoldable pub exists_order : (OrderRow Numeric → Bool) → List (OrderRow Numeric) → Bool
  exists_order test [] = false
  exists_order test (o ∷ os) = test o || exists_order test os

  abbrev probe_with : SubmitOrderParams → Checked → Stamp → Db Numeric → Option Probe → Result Bool
  probe_with p c now d none = err database_failed
  probe_with p c now d (some q) = ok (exists_order (is_repeat p c q now) d.orders)

  -- `SELECT EXISTS (SELECT 1 FROM client_orders WHERE …)`
  unfoldable pub find_repeat : SubmitOrderParams → Checked → Stamp → Db Numeric → Result Bool
  unfolding exists_order is_repeat
  find_repeat p c now d = probe_with p c now d (probe_of p c)

  -- The row of a new order; `status`, `submitted_at` and `order_day` are the columns' defaults.
  unfoldable pub new_order : SubmitOrderParams → Checked → Stamp → ℤ → Option (OrderRow Numeric)
  unfolding in_time_zone
  new_order p c now ref = do
    side ← smallint p.side
    quantity ← numeric_column x p.quantity
    rate ← optional_with (numeric_column x) c.limit_rate
    min ← optional_with (numeric_column x) c.min_trade_quantity
    some (record {
      submitted_at = now;
      order_day = (in_time_zone now).date;
      ref_id = ref;
      order_id = none;
      side = side;
      segment = p.segment;
      status = pending;
      order_type = c.order_type;
      counterparty_segment = p.counterparty_segment;
      quantity = quantity;
      limit_rate = rate;
      remaining_quantity = quantity;
      min_trade_quantity = min;
      currency_pair = p.currency_pair;
      partner_id = p.partner_id;
      client_id = p.client_id;
      client_inn = p.client_inn;
      cause = none;
      account = p.account;
      fee = p.fee;
    })

  -- The primary key refuses a second row of the day with the same `ref_id`.
  abbrev pub insert_fresh :
      OrderRow Numeric
      → ℤ
      → Db Numeric
      → Option (OrderRow Numeric)
      → Option ((ℤ × Text) × Db Numeric)
  insert_fresh o next d (some old) = none
  insert_fresh o next d none =
      some ((o.ref_id, format_day o.order_day), record d { orders = o ∷ d.orders; next_ref = next })

  -- `INSERT INTO client_orders … RETURNING ref_id, to_char(order_day, 'YYYY-MM-DD')`
  unfoldable pub insert_order :
      SubmitOrderParams → Checked → Stamp → Db Numeric → Option ((ℤ × Text) × Db Numeric)
  unfolding new_order next_serial
  insert_order p c now d = do
    next ← next_serial d.next_ref
    o ← new_order p c now d.next_ref
    insert_fresh o next d (find_order o.order_day o.ref_id d.orders)

  abbrev pub update_day :
      Option Date
      → ℤ
      → (OrderRow Numeric → OrderRow Numeric)
      → Db Numeric
      → Option (Unit {0} × Db Numeric)
  update_day none ref f d = none
  update_day (some day) ref f d = some (tt, record d { orders = update_order day ref f d.orders })

  -- `UPDATE client_orders SET … WHERE order_day = $1 AND ref_id = $2`
  abbrev pub update_at_day :
      Text → ℤ → (OrderRow Numeric → OrderRow Numeric) → Db Numeric → Option (Unit {0} × Db Numeric)
  update_at_day day ref f d = update_day (date_in day) ref f d

  -- `SET order_id = $1`
  unfoldable pub set_order_id : ℤ → Text → ℤ → Db Numeric → Option (Unit {0} × Db Numeric)
  set_order_id id day ref = update_at_day day ref (λ o. record o { order_id = some id })

  -- `NULLIF(_, 0)`
  abbrev pub nullif_zero : ℤ → Option ℤ
  nullif_zero n = if eq_ℤ n (pos 0) then none else some n

  -- `SET status = $1, cause = $2, order_id = NULLIF($3, 0)`
  unfoldable pub set_outcome :
      OrderStatus → Text → ℤ → Text → ℤ → Db Numeric → Option (Unit {0} × Db Numeric)
  set_outcome status cause id day ref =
      update_at_day day ref
        λ o. record o { status = status; cause = some cause; order_id = nullif_zero id }

  abbrev pub with_remaining :
      (Numeric → Db Numeric → Option (Unit {0} × Db Numeric))
      → Option Numeric
      → Db Numeric
      → Option (Unit {0} × Db Numeric)
  with_remaining f none d = none
  with_remaining f (some n) d = f n d

  -- `SET status = $1, cause = $2, remaining_quantity = $3`
  unfoldable pub set_cancelled :
      OrderStatus → Text → Text → Text → ℤ → Db Numeric → Option (Unit {0} × Db Numeric)
  set_cancelled status cause remaining day ref =
      with_remaining
        (λ n.
          update_at_day day ref
            λ o. record o { status = status; cause = some cause; remaining_quantity = n })
        (numeric_column x remaining)

  -- `SET status = $1, remaining_quantity = $2`
  unfoldable pub set_event :
      OrderStatus → Text → Text → ℤ → Db Numeric → Option (Unit {0} × Db Numeric)
  set_event status remaining day ref =
      with_remaining
        (λ n. update_at_day day ref λ o. record o { status = status; remaining_quantity = n })
        (numeric_column x remaining)
