-- ===== src/Order/Terms.antt =====
-- The terms of an order, which no operation changes once the order is stored.

use mathlib.Core.Path.{subst}
use fx_sdk.Store.{OrderRow, find_order, is_order, update_order}
use fx_sdk.Time.Date.{Date, eq_date-eq}
use fx_sdk.Common.{Bool-cases, List, [], arith, eq_ℤ_iff, inl, inr, none, some, ℤ, ◌∷◌, ◌≡◌}

module _ {N : Type 0} where
  -- The row of one order at two times: what may differ is the status, the cause, the Core's id and the
  -- quantity that remains.
  pub record SameTerms (o p : OrderRow N) : Type 0 where
    pub submitted_same : p.submitted_at ≡ o.submitted_at
    pub day_same : p.order_day ≡ o.order_day
    pub ref_same : p.ref_id ≡ o.ref_id
    pub side_same : p.side ≡ o.side
    pub segment_same : p.segment ≡ o.segment
    pub type_same : p.order_type ≡ o.order_type
    pub counterparty_same : p.counterparty_segment ≡ o.counterparty_segment
    pub quantity_same : p.quantity ≡ o.quantity
    pub rate_same : p.limit_rate ≡ o.limit_rate
    pub min_same : p.min_trade_quantity ≡ o.min_trade_quantity
    pub pair_same : p.currency_pair ≡ o.currency_pair
    pub partner_same : p.partner_id ≡ o.partner_id
    pub client_same : p.client_id ≡ o.client_id
    pub inn_same : p.client_inn ≡ o.client_inn
    pub account_same : p.account ≡ o.account
    pub fee_same : p.fee ≡ o.fee

  pub SameTerms-refl : (o : OrderRow N) → SameTerms o o
  SameTerms-refl o = ground arith

  pub SameTerms-trans : {o p q : OrderRow N} → SameTerms o p → SameTerms p q → SameTerms o q
  SameTerms-trans h k = ground arith

  -- From one table to a later one: no order is lost, and its terms stay.
  pub record OrdersKept (a b : List (OrderRow N)) : Type 0 where
    pub kept :
        (day : Date) (ref : ℤ) (o : OrderRow N)
        → find_order day ref a ≡ some o
        → (p : OrderRow N) × (find_order day ref b ≡ some p) × SameTerms o p

  pub OrdersKept-refl : (a : List (OrderRow N)) → OrdersKept a a
  OrdersKept-refl a = record { kept = λ day ref o h. (o, h, SameTerms-refl o) }

  pub OrdersKept-trans :
      {a b c : List (OrderRow N)} → OrdersKept a b → OrdersKept b c → OrdersKept a c
  OrdersKept-trans h k = record {
    kept = λ day ref o found.
        let (p, found_p, same) = h.kept day ref o found in
        let (q, found_q, same') = k.kept day ref p found_p in
        (q, found_q, SameTerms-trans same same');
  }

  -- A row is found by its own key alone.
  pub find_order-key :
      (day : Date) (ref : ℤ) (os : List (OrderRow N)) {o : OrderRow N}
      → find_order day ref os ≡ some o
      → (o.order_day ≡ day) × (o.ref_id ≡ ref)
  unfolding find_order
  find_order-key day ref [] h = cc
  find_order-key day ref (r ∷ rs) {o} h =
      ground (
        arith,
        eq_date-eq r.order_day day,
        eq_ℤ_iff r.ref_id ref,
        find_order-key day ref rs {o = o},
      )

  pub OrdersKept-insert :
      (o : OrderRow N) (a : List (OrderRow N))
      → find_order o.order_day o.ref_id a ≡ none
      → OrdersKept a (o ∷ a)
  unfolding find_order
  OrdersKept-insert o a fresh = record {
    kept = λ day ref r found.
        (r, ground (arith, eq_date-eq o.order_day day, eq_ℤ_iff o.ref_id ref), SameTerms-refl r);
  }

  find_order-update :
      (day : Date) (ref : ℤ) (f : OrderRow N → OrderRow N)
      → ((o : OrderRow N) → SameTerms o (f o))
      → (day' : Date) (ref' : ℤ) (os : List (OrderRow N)) (o : OrderRow N)
      → find_order day' ref' os ≡ some o
      → (p : OrderRow N) × (find_order day' ref' (update_order day ref f os) ≡ some p)
        × SameTerms o p
  unfolding find_order update_order
  find_order-update day ref f same day' ref' [] o h = cc
  find_order-update day ref f same day' ref' (r ∷ rs) o h =
      elim (Bool-cases (is_order day' ref' r)) [
        | inl hit ↦ elim (Bool-cases (is_order day ref r)) [
          | inl changed ↦ (
            f r,
            ground (arith, (same r).day_same, (same r).ref_same),
            let at : r ≡ o = ground arith in
                subst (λ (s : OrderRow N). SameTerms s (f r)) at (same r),
          )
          | inr unchanged ↦
              (r, ground arith, let at : r ≡ o = ground arith in rw at (SameTerms-refl o))
        ]
        | inr miss ↦
            let (p, found, terms) =
              find_order-update day ref f same day' ref' rs o (ground arith) in
            (p, ground (arith, (same r).day_same, (same r).ref_same), terms)
      ]

  pub OrdersKept-update :
      (day : Date) (ref : ℤ) (f : OrderRow N → OrderRow N) (a : List (OrderRow N))
      → ((o : OrderRow N) → SameTerms o (f o))
      → OrdersKept a (update_order day ref f a)
  OrdersKept-update day ref f a same = record {
    kept = λ day' ref' o h. find_order-update day ref f same day' ref' a o h;
  }
