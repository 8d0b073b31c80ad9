-- ===== src/Store/Rows.antt =====
-- The tables under lookups and updates, and the invariant that their primary keys state.
use fx_sdk.Time.Date.{Date, eq_date, eq_date-eq, eq_date_refl}
use fx_sdk.Store.Tables.{
  TradeRow, find_order, find_trade, TradeKey, update_order, update_trade, eq_key_iff, eq_key,
  OrderRow,
}
use fx_sdk.Common.{
  ◌≡◌, refl, arith, none, some, [], ◌∷◌, List, Option, if◌then◌else◌, ℤ, ◌&&◌, eq_ℤ, false,
  eq_ℤ_iff, eq_ℤ_refl,
}

module _ {N : Type 0} where
  abbrev pub map_found : (TradeRow N → TradeRow N) → Option (TradeRow N) → Option (TradeRow N)
  map_found f none = none
  map_found f (some r) = some (f r)

  -- No two rows have one primary key.
  abbrev pub UniqueKeys : List (TradeRow N) → Type 0
  UniqueKeys [] = Unit
  UniqueKeys (r ∷ rs) = (find_trade r.key rs ≡ none) × UniqueKeys rs

  -- A row that is found has the key that was asked for.
  pub key-find_trade :
      (k : TradeKey) (rs : List (TradeRow N)) {t : TradeRow N}
      → find_trade k rs ≡ some t
      → t.key ≡ k
  unfolding find_trade
  key-find_trade k [] h = cc
  key-find_trade k (r ∷ rs) {t} h = ground (arith, eq_key_iff r.key k, key-find_trade k rs {t = t})

  module _ (f : TradeRow N → TradeRow N) (keeps : (r : TradeRow N) → (f r).key ≡ r.key) where
    pub find_trade-update_trade :
        (j k : TradeKey) (rs : List (TradeRow N))
        → find_trade j (update_trade k f rs)
          ≡ (if eq_key k j then map_found f (find_trade j rs) else find_trade j rs)
    unfolding find_trade update_trade
    find_trade-update_trade j k [] = ground arith
    find_trade-update_trade j k (r ∷ rs) = ground (
      arith,
      keeps r,
      eq_key_iff r.key k,
      eq_key_iff r.key j,
      eq_key_iff k j,
      find_trade-update_trade j k rs,
    )

    pub update_trade-UniqueKeys :
        (k : TradeKey) (rs : List (TradeRow N)) → UniqueKeys rs → UniqueKeys (update_trade k f rs)
    unfolding update_trade
    update_trade-UniqueKeys k [] u = tt
    update_trade-UniqueKeys k (r ∷ rs) u =
        ground
          (arith, keeps r, find_trade-update_trade r.key k rs, update_trade-UniqueKeys k rs u.1)

  pub find_order-update_order :
      (day : Date) (ref : ℤ) (f : OrderRow N → OrderRow N)
      (keeps : (o : OrderRow N) → ((f o).order_day ≡ o.order_day) × ((f o).ref_id ≡ o.ref_id))
      (day' : Date) (ref' : ℤ) (os : List (OrderRow N))
      → (eq_date day day' && eq_ℤ ref ref') ≡ false
      → find_order day' ref' (update_order day ref f os) ≡ find_order day' ref' os
  unfolding find_order update_order
  find_order-update_order day ref f keeps day' ref' [] ne = refl
  find_order-update_order day ref f keeps day' ref' (o ∷ os) ne = ground (
    arith,
    keeps o,
    eq_date-eq o.order_day day,
    eq_date-eq o.order_day day',
    eq_ℤ_iff o.ref_id ref,
    eq_ℤ_iff o.ref_id ref',
    eq_date_refl day,
    eq_ℤ_refl ref,
    find_order-update_order day ref f keeps day' ref' os ne,
  )
