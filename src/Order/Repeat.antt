-- ===== src/Order/Repeat.antt =====
-- The probe of `SubmitOrder` for a duplicate, on a table that holds the order already.

use mathlib.Core.Path.{subst}
use fx_sdk.Errors.{ok}
use fx_sdk.Trade.Statements.{numeric_column}
use fx_sdk.Types.{SubmitOrderParams}
use fx_sdk.Time.Zone.{Stamp, earlier, in_time_zone, today}
use fx_sdk.Order.Terms.{SameTerms}
use fx_sdk.Order.Inserted.{RowOf}
use fx_sdk.Order.Statements.{
  Probe, exists_order, find_repeat, is_repeat, minus_minute, not_distinct, optional_with, probe_of,
}
use fx_sdk.Platform.{Platform}
use fx_sdk.Store.{Db, OrderRow, find_order}
use fx_sdk.Time.Date.{Date, eq_date_refl}
use fx_sdk.Common.{
  Bool, List, Option, Text, [], ap, arith, none, refl, some, true, ℤ, ◌∷◌, ◌≡◌, eq_text_refl,
  eq_ℤ_refl, some-injective,
}
use fx_sdk.Order.Check.{Acceptable, Checked, HasScale, OptionalScale}

module _ (x : Platform) where
  open x use {Decimal, Numeric, numeric_in, numeric_eq, to_scale}

  exists_order-find_order :
      (test : OrderRow Numeric → Bool) (day : Date) (ref : ℤ) (o : OrderRow Numeric)
      (os : List (OrderRow Numeric))
      → find_order day ref os ≡ some o
      → test o ≡ true
      → exists_order x test os ≡ true
  unfolding find_order exists_order
  exists_order-find_order test day ref o [] found h = cc
  exists_order-find_order test day ref o (p ∷ os) found h =
      ground (arith, exists_order-find_order test day ref o os)

  -- The number that a text is to the probe, and the number that the column holds for it.
  module _
      (exact : (t : Text) (read kept : Numeric)
        → HasScale x t
        → numeric_in t ≡ some read
        → to_scale read ≡ some kept
        → numeric_eq kept read ≡ true) where
    column_reads :
        (t : Text) {kept : Numeric}
        → HasScale x t
        → numeric_column x t ≡ some kept
        → (read : Numeric) × (numeric_in t ≡ some read) × (numeric_eq kept read ≡ true)
    column_reads t {kept} scale h = go (numeric_in t) refl
      where
        go :
            (o : Option Numeric)
            → numeric_in t ≡ o
            → (read : Numeric) × (numeric_in t ≡ some read) × (numeric_eq kept read ≡ true)
        go none e = cc
        go (some read) e = (read, e, exact t read kept scale e (ground arith))

    optional_reads :
        (o : Option Text) {kept : Option Numeric}
        → OptionalScale x o
        → optional_with x (numeric_column x) o ≡ some kept
        → (read : Option Numeric) × (optional_with x numeric_in o ≡ some read)
          × (not_distinct x kept read ≡ true)
    optional_reads none {kept} scale h = (
      none,
      refl,
      subst (λ (k : Option Numeric). not_distinct x k none ≡ true) (some-injective h) refl,
    )
    optional_reads (some t) {kept} scale h = go (numeric_column x t) refl
      where
        go :
            (r : Option Numeric)
            → numeric_column x t ≡ r
            → (read : Option Numeric) × (optional_with x numeric_in (some t) ≡ some read)
              × (not_distinct x kept read ≡ true)
        go none e = cc
        go (some n) e =
            let (read, reads, same) = column_reads t scale e in
            let at : some n ≡ kept = ground arith in
            (
              some read,
              rw reads refl,
              subst (λ (k : Option Numeric). not_distinct x k (some read) ≡ true) at same,
            )

    probe_of-RowOf :
        (p : SubmitOrderParams) (c : Checked) (at : Stamp) (ref : ℤ) (o : OrderRow Numeric)
        → Acceptable x p c
        → RowOf x p c at ref o
        → (q : Probe x) × (probe_of x p c ≡ some q)
          × (q.side ≡ o.side)
          × (not_distinct x o.limit_rate q.limit_rate ≡ true)
          × (numeric_eq o.quantity q.quantity ≡ true)
    probe_of-RowOf p c at ref o a row =
        let (quantity, reads, same) = column_reads p.quantity a.quantity_scale row.quantity_eq in
        let (rate, rate_reads, same_rate) = optional_reads c.limit_rate a.rate_scale row.rate_eq in
        (
          record { side = o.side; limit_rate = rate; quantity = quantity },
          rw row.side_fits (rw rate_reads (rw reads refl)),
          refl,
          same_rate,
          same,
        )

    is_repeat-RowOf :
        (p : SubmitOrderParams) (c : Checked) (q : Probe x) {at : Stamp} (again : Stamp) (ref : ℤ)
        (o s : OrderRow Numeric)
        → RowOf x p c at ref o
        → SameTerms o s
        → (in_time_zone again).date ≡ (in_time_zone at).date
        → earlier (minus_minute again) at ≡ true
        → q.side ≡ o.side
        → not_distinct x o.limit_rate q.limit_rate ≡ true
        → numeric_eq o.quantity q.quantity ≡ true
        → is_repeat x p c q again s ≡ true
    unfolding is_repeat
    is_repeat-RowOf p c q again ref o s row same today soon side rate quantity = ground (
      arith,
      eq_date_refl o.order_day,
      eq_text_refl p.partner_id,
      eq_text_refl p.client_id,
      eq_ℤ_refl q.side,
      eq_text_refl p.currency_pair,
      eq_ℤ_refl c.order_type,
    )

    -- The probe finds the row, whatever has become of the order since.
    pub find_repeat-RowOf :
        (p : SubmitOrderParams) (c : Checked) (at again : Stamp) (ref : ℤ) (o s : OrderRow Numeric)
        (d : Db Numeric) (day : Date) (key : ℤ)
        → Acceptable x p c
        → RowOf x p c at ref o
        → SameTerms o s
        → find_order day key d.orders ≡ some s
        → (in_time_zone again).date ≡ (in_time_zone at).date
        → earlier (minus_minute again) at ≡ true
        → find_repeat x p c again d ≡ ok true
    unfolding find_repeat
    find_repeat-RowOf p c at again ref o s d day key a row same found today soon =
        let (q, probe, side, rate, quantity) = probe_of-RowOf p c at ref o a row in
        rw probe (
          ap ok (
            exists_order-find_order (is_repeat x p c q again) day key s d.orders found
              (is_repeat-RowOf p c q again ref o s row same today soon side rate quantity)))
