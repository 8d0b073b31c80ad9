-- ===== src/Reconcile/Held.antt =====
-- When a trade of the Core and a stored trade are one (go/v1/reconcile.go): they have the same two ids.

-- The stored copy of a trade of the Core.
use mathlib.Core.Path.{subst}
use fx_sdk.Reconcile.Local.{collect, find_local, is_local, local_of, put_local}
use fx_sdk.Store.{TradeRow}
use fx_sdk.Platform.{Platform}
use fx_sdk.Types.{LocalTrade, Trade}
use fx_sdk.Common.{
  All, Any, Bool, List, [], arith, eq_ℤ_iff, false, if◌then◌else◌, inl, inr, refl, some,
  some-injective, sym, true, ℤ, ◌↔◌, ◌∙◌, ◌∷◌, ◌≡◌,
}

abbrev pub IsCopy : Trade → LocalTrade → Type 0
IsCopy ct lt = (ct.trade_id ≡ lt.trade_id) × (ct.order_id ≡ lt.order_id)

-- No two stored trades have the same two ids.
abbrev pub DistinctIds : List LocalTrade → Type 0
DistinctIds [] = Unit
DistinctIds (lt ∷ m) =
    All (λ (o : LocalTrade). (lt.trade_id ≡ o.trade_id) × (lt.order_id ≡ o.order_id) → ⊥) m
    × DistinctIds m

is_local_iff :
    (trade order : ℤ) (lt : LocalTrade)
    → (is_local trade order lt ≡ true) ↔ ((trade ≡ lt.trade_id) × (order ≡ lt.order_id))
is_local_iff trade order lt = ground (arith, eq_ℤ_iff lt.trade_id trade, eq_ℤ_iff lt.order_id order)

-- The rows of an hour are collected with distinct ids.
All-put_local :
    (P : LocalTrade → Type 0) (lt : LocalTrade) (m : List LocalTrade)
    → P lt
    → All P m
    → All P (put_local lt m)
unfolding put_local
All-put_local P lt [] h hm = (h, tt)
All-put_local P lt (old ∷ m) h hm =
    go (is_local lt.trade_id lt.order_id old) (All-put_local P lt m h hm.1)
  where
    go : (b : Bool) → All P (put_local lt m) → All P (if b then lt ∷ m else old ∷ put_local lt m)
    go true ih = (h, hm.1)
    go false ih = (hm.0, ih)

put_local-DistinctIds :
    (lt : LocalTrade) (m : List LocalTrade) → DistinctIds m → DistinctIds (put_local lt m)
unfolding put_local
put_local-DistinctIds lt [] d = (tt, tt)
put_local-DistinctIds lt (old ∷ m) d =
    go (is_local lt.trade_id lt.order_id old) refl (put_local-DistinctIds lt m d.1)
  where
    go :
        (b : Bool)
        → is_local lt.trade_id lt.order_id old ≡ b
        → DistinctIds (put_local lt m)
        → DistinctIds (if b then lt ∷ m else old ∷ put_local lt m)
    go true e ih =
        let (t, o) = (is_local_iff lt.trade_id lt.order_id old).0 e in
        (
          subst
              (λ (i : ℤ).
                All (λ (c : LocalTrade). (i ≡ c.trade_id) × (lt.order_id ≡ c.order_id) → ⊥) m)
              (sym t)
              (subst
                (λ (j : ℤ).
                  All (λ (c : LocalTrade). (old.trade_id ≡ c.trade_id) × (j ≡ c.order_id) → ⊥) m)
                (sym o) d.0),
          d.1,
        )
    go false e ih =
        let differs : (old.trade_id ≡ lt.trade_id) × (old.order_id ≡ lt.order_id) → ⊥ = λ same.
          let found_old : is_local lt.trade_id lt.order_id old ≡ true =
            (is_local_iff lt.trade_id lt.order_id old).1 (sym same.0, sym same.1) in
          let wrong : true ≡ false = sym found_old ∙ e in cc in
        (
          All-put_local
              (λ (c : LocalTrade). (old.trade_id ≡ c.trade_id) × (old.order_id ≡ c.order_id) → ⊥) lt
              m differs d.0,
          ih,
        )

pub collect-DistinctIds :
    (x : Platform) (rs : List (TradeRow x.Numeric)) (m : List LocalTrade)
    → DistinctIds m
    → DistinctIds (collect x rs m)
unfolding collect
collect-DistinctIds x [] m d = d
collect-DistinctIds x (r ∷ rs) m d =
    collect-DistinctIds x rs (put_local (local_of x r) m) (put_local-DistinctIds (local_of x r) m d)

-- A lookup finds a copy with a property exactly if there is one.
module _ (P : LocalTrade → Type 0) (ct : Trade) where
  abbrev pub CopyWith : LocalTrade → Type 0
  CopyWith lt = IsCopy ct lt × P lt

  pub find_local-Any :
      (local : List LocalTrade) (lt : LocalTrade)
      → find_local ct.trade_id ct.order_id local ≡ some lt
      → P lt
      → Any CopyWith local
  unfolding find_local
  find_local-Any [] lt h p = cc
  find_local-Any (o ∷ m) lt h p =
      go (is_local ct.trade_id ct.order_id o) refl h (find_local-Any m lt)
    where
      go :
          (b : Bool)
          → is_local ct.trade_id ct.order_id o ≡ b
          → (if b then some o else find_local ct.trade_id ct.order_id m) ≡ some lt
          → (find_local ct.trade_id ct.order_id m ≡ some lt → P lt → Any CopyWith m)
          → Any CopyWith (o ∷ m)
      go true e k ih =
          inl ((is_local_iff ct.trade_id ct.order_id o).0 e, subst P (sym (some-injective k)) p)
      go false e k ih = inr (ih k p)

  no_other :
      (o : LocalTrade) (m : List LocalTrade)
      → IsCopy ct o
      → All (λ (c : LocalTrade). (o.trade_id ≡ c.trade_id) × (o.order_id ≡ c.order_id) → ⊥) m
      → Any CopyWith m
      → ⊥
  no_other o [] copy none_same nowhere = elim nowhere [ ]
  no_other o (c ∷ m) copy none_same (inl (copies, _)) =
      none_same.0 (sym copy.0 ∙ copies.0, sym copy.1 ∙ copies.1)
  no_other o (c ∷ m) copy none_same (inr rest) = no_other o m copy none_same.1 rest

  pub Any-find_local :
      (local : List LocalTrade)
      → DistinctIds local
      → Any CopyWith local
      → (lt : LocalTrade) × (find_local ct.trade_id ct.order_id local ≡ some lt) × P lt
  unfolding find_local
  Any-find_local [] d nowhere = elim nowhere [ ]
  Any-find_local (o ∷ m) d (inl (copy, p)) =
      let found = (is_local_iff ct.trade_id ct.order_id o).1 copy in (o, rw found refl, p)
  Any-find_local (o ∷ m) d (inr rest) =
      let (lt, found, p) = Any-find_local m d.1 rest in
      go (is_local ct.trade_id ct.order_id o) refl lt found p
    where
      go :
          (b : Bool)
          → is_local ct.trade_id ct.order_id o ≡ b
          → (lt : LocalTrade) → find_local ct.trade_id ct.order_id m ≡ some lt
          → P lt
          → (lt : LocalTrade) × ((if b then some o else find_local ct.trade_id ct.order_id m)
              ≡ some lt)
            × P lt
      go true e lt found p =
          absurd (no_other o m ((is_local_iff ct.trade_id ct.order_id o).0 e) d.0 rest)
      go false e lt found p = (lt, found, p)
