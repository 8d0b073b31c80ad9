-- ===== src/Client/Repeat.antt =====
-- An order that is submitted a second time (go/v1/order.go), with any calls in between.

use mathlib.Core.Path.{subst}
use fx_sdk.Order.Repeat.{find_repeat-RowOf}
use fx_sdk.Order.Statements.{find_repeat, insert_order, minus_minute}
use fx_sdk.Time.Zone.{earlier, in_time_zone}
use fx_sdk.Store.Laws.{annotate-ok, bind-ok, exec-ok, query-ok}
use fx_sdk.Client.Orders.{after_order_insert-Follows}
use fx_sdk.Client.Inserts.{found_first, insert_order_step-NamesOrder}
use fx_sdk.Order.Submit.{
  after_order_insert, after_probe, insert_order_step, probe_step, submit_checked, submit_order,
  submit_with,
}
use fx_sdk.Types.{SubmitOrderParams, SubmitOrderResult, failed}
use fx_sdk.Order.Terms.{SameTerms, SameTerms-trans}
use fx_sdk.Order.Inserted.{RowOf, insert_order-Inserted}
use fx_sdk.Platform.{Platform, done, Outcome, in_doubt, refused}
use fx_sdk.Store.{OrderRow, World, advance, exec, find_order, query, query_with, annotate_result}
use fx_sdk.Client.History.{History, History-Later}
use fx_sdk.Errors.{Error, Result, duplicate_order, err, ok, context, database_failed}
use fx_sdk.Order.Check.{Checked, HasScale, check_order, check_order-Acceptable}
use fx_sdk.Common.{
  Bool, Text, ap, codes, false, refl, some, sym, true, ℕ, ℤ, ◌+◌, ◌∙◌, ◌∷◌, ◌≡◌, ◌≢◌, ◌⊎◌, arith,
  inl, inr,
}

module _ (x : Platform) where
  open x use {Decimal, Numeric, now, numeric_in, to_scale, numeric_eq}

  -- The row of an order that was submitted, as the submission left it.
  record Stored (p : SubmitOrderParams) (w w1 : World Numeric Decimal) : Type 0 where
    checked : Checked
    passed : check_order x p ≡ ok checked
    ref : ℤ
    row : OrderRow Numeric
    row_of : RowOf x p checked (now (w.tick + 1)) ref row
    left : OrderRow Numeric
    found : find_order row.order_day row.ref_id w1.db.orders ≡ some left
    same : SameTerms row left

  insert_order_step-Stored :
      (p : SubmitOrderParams) (c : Checked) (w v w1 : World Numeric Decimal) {r : SubmitOrderResult}
      → check_order x p ≡ ok c
      → v.tick ≡ w.tick + 1
      → after_probe x p c false v ≡ (ok r, w1)
      → Stored p w w1
  unfolding after_probe insert_order_step
  insert_order_step-Stored p c w v w1 passed tick h =
      let (key, w2, ran, rest) = bind-ok (insert_order_step x p c) (after_order_insert x p c) v h in
      let s = insert_order x p c (now v.tick) in
      let (d, made, at) = exec-ok x s v (annotate-ok x (codes "insert order") (exec x s) v ran) in
      let i = insert_order-Inserted x p c (now v.tick) v.db made in
      let named = insert_order_step-NamesOrder x p c v ran in
      let later = (after_order_insert-Follows x p c key w2 named).later in
      let orders : w2.db.orders ≡ i.row ∷ v.db.orders =
        ap (λ (u : World Numeric Decimal). u.db.orders) at ∙ i.orders_eq in
      let first : find_order i.row.order_day i.row.ref_id w2.db.orders ≡ some i.row =
        rw orders (found_first x i.row v.db.orders) in
      let (left, found, same) = later.orders.kept i.row.order_day i.row.ref_id i.row first in
      record {
        checked = c;
        passed = passed;
        ref = v.db.next_ref;
        row = i.row;
        row_of = subst (λ (n : ℕ). RowOf x p c (now n) v.db.next_ref i.row) tick i.row_of;
        left = left;
        found =
            ap
              (λ (a : Result SubmitOrderResult × World Numeric Decimal).
                find_order i.row.order_day i.row.ref_id a.1.db.orders)
              (sym rest)
            ∙ found;
        same = same;
      }

  submit_order-Stored :
      (p : SubmitOrderParams) (w w1 : World Numeric Decimal) {r : SubmitOrderResult}
      → submit_order x (some p) w ≡ (ok r, w1)
      → Stored p w w1
  unfolding submit_order submit_checked probe_step after_probe
  submit_order-Stored p w w1 {r} h = go (check_order x p) refl h
    where
      go :
          (a : Result Checked)
          → check_order x p ≡ a
          → submit_with x p a w ≡ (ok r, w1)
          → Stored p w w1
      go (err e) passed j = cc
      go (ok c) passed j =
          let (b, v, ran, rest) = bind-ok (probe_step x p c) (after_probe x p c) w j in
          let q = find_repeat x p c (now w.tick) in
          let (_, at) =
            query-ok x q w (annotate-ok x (codes "check for a duplicate") (query x q) w ran) in
          answered b v (ap (λ (u : World Numeric Decimal). u.tick) at) rest
        where
          answered :
              (b : Bool) (v : World Numeric Decimal)
              → v.tick ≡ w.tick + 1
              → after_probe x p c b v ≡ (ok r, w1)
              → Stored p w w1
          answered true v tick j = cc
          answered false v tick j = insert_order_step-Stored p c w v w1 passed tick j

  -- What a submission does that is refused.
  abbrev pub Refused : SubmitOrderParams → World Numeric Decimal → Type 0
  Refused p u =
      (submit_order x (some p) u ≡ (err duplicate_order, advance u))
      ⊎ ((x.outcome u.tick ≢ done) × (e : Error) × (submit_order x (some p) u ≡ (err e, advance u)))

  probe_step-found :
      (p : SubmitOrderParams) (c : Checked) (u : World Numeric Decimal)
      → find_repeat x p c (now u.tick) u.db ≡ ok true
      → (probe_step x p c u ≡ (ok true, advance u))
        ⊎ ((x.outcome u.tick ≢ done) × (e : Error) × (probe_step x p c u ≡ (err e, advance u)))
  unfolding probe_step query query_with
  probe_step-found p c u found = go (x.outcome u.tick) (find_repeat x p c (now u.tick) u.db) found
    where
      words : Text
      words = codes "check for a duplicate"

      go :
          (o : Outcome) (r : Result Bool)
          → r ≡ ok true
          → (annotate_result x words (query_with o r (advance u)) ≡ (ok true, advance u))
            ⊎ ((o ≢ done)
                × (e : Error) × (annotate_result x words (query_with o r (advance u))
                    ≡ (err e, advance u)))
      go done (ok b) h = inl (ground arith)
      go done (err e) h = cc
      go refused r h = inr ((λ q. cc), context words database_failed, refl)
      go in_doubt r h = inr ((λ q. cc), context words database_failed, refl)

  found-Refused :
      (p : SubmitOrderParams) (c : Checked) (u : World Numeric Decimal)
      → check_order x p ≡ ok c
      → find_repeat x p c (now u.tick) u.db ≡ ok true
      → Refused p u
  unfolding submit_order submit_checked after_probe
  found-Refused p c u passed found =
      let start : submit_order x (some p) u ≡ submit_checked x p c u =
        ap (λ (a : Result Checked). submit_with x p a u) passed in
      elim (probe_step-found p c u found) [
        | inl h ↦ inl (start ∙ ap rest h)
        | inr (failed, e, h) ↦ inr (failed, e, start ∙ ap rest h)
      ]
    where
      rest : Result Bool × World Numeric Decimal → Result SubmitOrderResult × World Numeric Decimal
      rest (r, v) = elim r as (λ _. Result SubmitOrderResult × World Numeric Decimal) [
        | ok a ↦ after_probe x p c a v
        | err e ↦ (err e, v)
      ]

  module _
      (exact : (t : Text) (read kept : Numeric)
        → HasScale x t
        → numeric_in t ≡ some read
        → to_scale read ≡ some kept
        → numeric_eq kept read ≡ true) where
    -- An order whose submission returned a result is not submitted again within a minute of its insert
    -- on the same day of the zone: after any calls in between, `SubmitOrder` with the same parameters
    -- writes nothing and sends nothing, and returns the duplicate-order error, unless the call of the
    -- probe fails. This takes from the database that a number with at most six places equals what the
    -- NUMERIC(28,6) column keeps of it.
    pub submit_order-Refused :
        (p : SubmitOrderParams) (w : World Numeric Decimal) {w1 u : World Numeric Decimal}
        {r : SubmitOrderResult}
        → submit_order x (some p) w ≡ (ok r, w1)
        → History x w1 u
        → (in_time_zone (now u.tick)).date ≡ (in_time_zone (now (w.tick + 1))).date
        → earlier (minus_minute (now u.tick)) (now (w.tick + 1)) ≡ true
        → Refused p u
    submit_order-Refused p w {w1} {u} h calls same_day soon =
        let s = submit_order-Stored p w w1 h in
        let (o, found, same) =
          (History-Later x calls).orders.kept s.row.order_day s.row.ref_id s.left s.found in
        found-Refused p s.checked u s.passed (
          find_repeat-RowOf x exact p s.checked (now (w.tick + 1)) (now u.tick) s.ref s.row o u.db
            s.row.order_day s.row.ref_id ((check_order-Acceptable x p s.checked).0 s.passed)
            s.row_of (SameTerms-trans s.same same) found same_day soon)
