-- ===== src/Order/Inserted.antt =====
-- What the insert of an order leaves: one new row under a fresh key, with the terms of the parameters.

use fx_sdk.Trade.Statements.{numeric_column}
use fx_sdk.Time.Layout.{format_day}
use fx_sdk.Types.{SubmitOrderParams, pending}
use fx_sdk.Time.Zone.{Stamp, in_time_zone}
use fx_sdk.Platform.{Platform}
use fx_sdk.Common.{Option, Text, arith, none, refl, some, ℤ, ◌∷◌, ◌≡◌, smallint}
use fx_sdk.Store.{Db, OrderRow, find_order}
use fx_sdk.Order.Check.{Checked}
use fx_sdk.Order.Statements.{
  ◌>>=◌, insert_fresh, insert_order, new_order, next_serial, optional_with,
}

module _ (x : Platform) where
  open x use {Numeric, Decimal}

  -- The columns that the caller gives.
  pub record RowOf (p : SubmitOrderParams) (c : Checked) (now : Stamp) (ref : ℤ)
      (o : OrderRow Numeric) : Type 0 where
    pub ref_eq : o.ref_id ≡ ref
    pub submitted_eq : o.submitted_at ≡ now
    pub day_eq : o.order_day ≡ (in_time_zone now).date
    pub status_eq : o.status ≡ pending
    pub id_eq : o.order_id ≡ none
    pub side_fits : smallint p.side ≡ some o.side
    pub side_eq : o.side ≡ p.side
    pub segment_eq : o.segment ≡ p.segment
    pub type_eq : o.order_type ≡ c.order_type
    pub counterparty_eq : o.counterparty_segment ≡ p.counterparty_segment
    pub quantity_eq : numeric_column x p.quantity ≡ some o.quantity
    pub remaining_eq : o.remaining_quantity ≡ o.quantity
    pub rate_eq : optional_with x (numeric_column x) c.limit_rate ≡ some o.limit_rate
    pub min_eq : optional_with x (numeric_column x) c.min_trade_quantity ≡ some o.min_trade_quantity
    pub pair_eq : o.currency_pair ≡ p.currency_pair
    pub partner_eq : o.partner_id ≡ p.partner_id
    pub client_eq : o.client_id ≡ p.client_id
    pub inn_eq : o.client_inn ≡ p.client_inn

  pub new_order-RowOf :
      (p : SubmitOrderParams) (c : Checked) (now : Stamp) (ref : ℤ) {o : OrderRow Numeric}
      → new_order x p c now ref ≡ some o
      → RowOf p c now ref o
  unfolding new_order
  new_order-RowOf p c now ref h = ground arith

  pub record Inserted (p : SubmitOrderParams) (c : Checked) (now : Stamp) (d : Db Numeric)
      (key : ℤ × Text) (d' : Db Numeric) : Type 0 where
    pub row : OrderRow Numeric
    pub row_of : RowOf p c now d.next_ref row
    pub key_eq : key ≡ (row.ref_id, format_day row.order_day)
    pub fresh : find_order row.order_day row.ref_id d.orders ≡ none
    pub orders_eq : d'.orders ≡ row ∷ d.orders
    pub trades_eq : d'.trades ≡ d.trades
    pub recons_eq : d'.recons ≡ d.recons

  pub insert_order-Inserted :
      (p : SubmitOrderParams) (c : Checked) (now : Stamp) (d : Db Numeric) {key : ℤ × Text}
      {d' : Db Numeric}
      → insert_order x p c now d ≡ some (key, d')
      → Inserted p c now d key d'
  unfolding insert_order
  insert_order-Inserted p c now d {key} {d'} h = first (next_serial d.next_ref) h
    where
      last :
          (next : ℤ) (o : OrderRow Numeric) (r : Option (OrderRow Numeric))
          → RowOf p c now d.next_ref o
          → find_order o.order_day o.ref_id d.orders ≡ r
          → insert_fresh x o next d r ≡ some (key, d')
          → Inserted p c now d key d'
      last next o (some old) row e j = cc
      last next o none row e j = record {
        row = o;
        row_of = row;
        key_eq = cc;
        fresh = e;
        orders_eq = cc;
        trades_eq = cc;
        recons_eq = cc;
      }

      second :
          (next : ℤ) (r : Option (OrderRow Numeric))
          → new_order x p c now d.next_ref ≡ r
          → (r >>= λ o. insert_fresh x o next d (find_order o.order_day o.ref_id d.orders))
            ≡ some (key, d')
          → Inserted p c now d key d'
      second next none e j = cc
      second next (some o) e j =
          last next o (find_order o.order_day o.ref_id d.orders)
            (new_order-RowOf p c now d.next_ref e) refl j

      first :
          (n : Option ℤ)
          → (n >>= λ next. new_order x p c now d.next_ref >>= λ o.
              insert_fresh x o next d (find_order o.order_day o.ref_id d.orders))
            ≡ some (key, d')
          → Inserted p c now d key d'
      first none j = cc
      first (some next) j = second next (new_order x p c now d.next_ref) refl j
