-- ===== src/Trade/Storage.antt =====
-- What `persist_trade` does to the database: nothing, or the one row and the one decrement of a first
-- delivery.
use mathlib.Core.Path.{subst}
use fx_sdk.Store.Laws.{bind-ok, exec-ok, annotate-ok, query-ok}
use fx_sdk.Trade.Persist.{
  Persisted, store_trade, first_delivery, insert_step, fill_step, after_fill, after_insert,
  redelivery, read_step, after_read,
}
use fx_sdk.Errors.{ok}
use fx_sdk.Time.Date.{Date}
use fx_sdk.Trade.Statements.{
  event_key, new_row, decrement, fill_at, insert_row, read_settled, settled_at, fill_found,
  fill_order, insert_found, insert_trade, settled_of, fill_row,
}
use fx_sdk.Time.Zone.{Stamp}
use fx_sdk.Store.{
  Db, TradeKey, TradeRow, find_trade, OrderRow, find_order, update_order, World, exec, query,
}
use fx_sdk.Common.{
  Bool, ◌≡◌, some, none, ◌∷◌, Option, ℕ, ℤ, ◌⊎◌, inr, inl, Text, arith, ap, refl, true, false,
  codes, ◌∙◌, ◌≢◌,
}
use fx_sdk.Wire.{TradeResponse, get_int, get_text}
use fx_sdk.Types.{TradeEvent, filled}
use fx_sdk.Platform.{Platform}

module _ (x : Platform) where
  open x use {Decimal, Numeric, date_in, parse_rfc3339}

  -- A first delivery: from `d` to `d'` the trade's row is added and its parent order is decremented.
  pub record StoredBy (resp : TradeResponse) (e : TradeEvent Decimal) (d d' : Db Numeric)
      : Type 0 where
    pub row : TradeRow Numeric
    pub clock : Stamp
    pub row_eq :
        new_row x e (get_int resp.ref_id) (parse_rfc3339 (get_text resp.executed_at)) clock
        ≡ some row
    pub fresh : find_trade row.key d.trades ≡ none
    pub trades_eq : d'.trades ≡ row ∷ d.trades
    pub day : Date
    pub day_eq : date_in (get_text resp.order_day) ≡ some day
    pub order : OrderRow Numeric
    pub order_eq : find_order day (get_int resp.ref_id) d.orders ≡ some order
    pub left : Numeric
    pub left_eq : decrement x order.remaining_quantity e.filled_quantity ≡ some left
    pub orders_eq :
        d'.orders
        ≡ update_order day
            (get_int resp.ref_id)
            (λ o. record o { status = e.order_status; remaining_quantity = left })
            d.orders
    pub recons_eq : d'.recons ≡ d.recons

  abbrev count : Option (ℕ × Db Numeric) → ℕ
  count none = 0
  count (some (n, d)) = n

  -- A redelivery: the row is there already.
  pub record AlreadyStored (e : TradeEvent Decimal) (settled : Bool) (d : Db Numeric) : Type 0 where
    pub key : TradeKey
    pub key_eq : event_key x e ≡ some key
    pub row : TradeRow Numeric
    pub row_eq : find_trade key d.trades ≡ some row
    pub settled_eq : row.settled ≡ settled

  settled_at-ok :
      (k : Option TradeKey) (e : TradeEvent Decimal) (d : Db Numeric) {s : Bool}
      → event_key x e ≡ k
      → settled_at x k d ≡ ok s
      → AlreadyStored e s d
  unfolding settled_at
  settled_at-ok none e d p h = cc
  settled_at-ok (some k) e d {s} p h = go (find_trade k d.trades) refl h
    where
      go :
          (r : Option (TradeRow Numeric))
          → find_trade k d.trades ≡ r
          → settled_of x r ≡ ok s
          → AlreadyStored e s d
      go none q j = cc
      go (some r) q j = record { key = k; key_eq = p; row = r; row_eq = q; settled_eq = cc }

  read_settled-ok :
      (e : TradeEvent Decimal) (d : Db Numeric) {s : Bool}
      → read_settled x e d ≡ ok s
      → AlreadyStored e s d
  unfolding read_settled
  read_settled-ok e d h = settled_at-ok (event_key x e) e d refl h

  -- An insert that is answered: the row was there and nothing changed, or it is new and was added.
  abbrev InsertCases : Option (TradeRow Numeric) → Db Numeric → ℕ → Db Numeric → Type 0
  InsertCases row d n d' =
      ((n ≡ 0) × (d' ≡ d))
      ⊎ ((n ≡ 1)
          × (r : TradeRow Numeric) × (row ≡ some r)
          × (find_trade r.key d.trades ≡ none)
          × (d' ≡ record d { trades = r ∷ d.trades }))

  insert_row-some :
      (row : Option (TradeRow Numeric)) (d d' : Db Numeric) {n : ℕ}
      → insert_row x row d ≡ some (n, d')
      → InsertCases row d n d'
  unfolding insert_row
  insert_row-some none d d' h = cc
  insert_row-some (some r) d d' {n} h = go (find_trade r.key d.trades) refl h
    where
      go :
          (f : Option (TradeRow Numeric))
          → find_trade r.key d.trades ≡ f
          → insert_found x r d f ≡ some (n, d')
          → InsertCases (some r) d n d'
      go none q j = inr (cc, r, refl, q, cc)
      go (some old) q j = inl (cc, cc)

  insert_trade-some :
      (e : TradeEvent Decimal) (ref : ℤ) (at : Option Stamp) (now : Stamp) (d d' : Db Numeric)
      {n : ℕ}
      → insert_trade x e ref at now d ≡ some (n, d')
      → InsertCases (new_row x e ref at now) d n d'
  unfolding insert_trade
  insert_trade-some e ref at now d d' h = insert_row-some (new_row x e ref at now) d d' h

  -- An update of the parent order that reports one row: that row was there, and was decremented.
  abbrev Filled : Option Date → ℤ → TradeEvent Decimal → Db Numeric → Db Numeric → Type 0
  Filled day ref e d d' =
      (dd : Date) × (day ≡ some dd)
      × (o : OrderRow Numeric) × (find_order dd ref d.orders ≡ some o)
      × (left : Numeric) × (decrement x o.remaining_quantity e.filled_quantity ≡ some left)
      × (d' ≡ record d {
        orders =
            update_order dd ref
              (λ o. record o { status = e.order_status; remaining_quantity = left }) d.orders;
      })

  fill_at-some :
      (day : Option Date) (ref : ℤ) (e : TradeEvent Decimal) (d d' : Db Numeric)
      → fill_at x day ref e d ≡ some (1, d')
      → Filled day ref e d d'
  unfolding fill_at
  fill_at-some none ref e d d' h = cc
  fill_at-some (some dd) ref e d d' h = go (find_order dd ref d.orders) refl h
    where
      last :
          (o : OrderRow Numeric) (left : Option Numeric)
          → find_order dd ref d.orders ≡ some o
          → decrement x o.remaining_quantity e.filled_quantity ≡ left
          → fill_found x dd ref e.order_status left d ≡ some (1, d')
          → Filled (some dd) ref e d d'
      last o none q p j = cc
      last o (some left) q p j = (dd, refl, o, q, left, p, cc)

      go :
          (f : Option (OrderRow Numeric))
          → find_order dd ref d.orders ≡ f
          → fill_row x dd ref e d f ≡ some (1, d')
          → Filled (some dd) ref e d d'
      go none q j = absurd (omega (arith, ap count j))
      go (some o) q j = last o (decrement x o.remaining_quantity e.filled_quantity) q refl j

  fill_order-some :
      (day : Text) (ref : ℤ) (e : TradeEvent Decimal) (d d' : Db Numeric)
      → fill_order x day ref e d ≡ some (1, d')
      → Filled (date_in day) ref e d d'
  unfolding fill_order
  fill_order-some day ref e d d' h = fill_at-some (date_in day) ref e d d' h

  -- What a successful run of `persist_trade` says, by `inserted`.
  abbrev pub PersistedAs :
      TradeResponse → TradeEvent Decimal → Persisted x → Db Numeric → Db Numeric → Type 0
  PersistedAs resp e p d d' =
      (p.event ≡ e)
      × (((p.inserted ≡ true) × (p.settled ≡ false) × StoredBy resp e d d')
          ⊎ ((p.inserted ≡ false) × AlreadyStored e p.settled d × (d' ≡ d)))

  -- The insert counts one row at most, so that a count other than 0 is 1.
  module _ (resp : TradeResponse) (e : TradeEvent Decimal) where
    insert_step-ok :
        (w : World Numeric Decimal) {n : ℕ} {w1 : World Numeric Decimal}
        → insert_step x resp e w ≡ (ok n, w1)
        → InsertCases
            (new_row x e
              (get_int resp.ref_id)
              (parse_rfc3339 (get_text resp.executed_at))
              (x.now w.tick))
            w.db
            n
            w1.db
    unfolding insert_step
    insert_step-ok w {n} h =
        let stmt =
          insert_trade x e (get_int resp.ref_id) (parse_rfc3339 (get_text resp.executed_at))
            (x.now w.tick) in
        let (d, s, at) =
          exec-ok x stmt w (annotate-ok x (codes "insert trade") (exec x stmt) w h) in
        rw (ap (λ (v : World Numeric Decimal). v.db) at) (
          insert_trade-some e (get_int resp.ref_id) (parse_rfc3339 (get_text resp.executed_at))
            (x.now w.tick) w.db d s)

    after_fill-ok :
        (n : ℕ) (w : World Numeric Decimal) {p : Persisted x} {w2 : World Numeric Decimal}
        → after_fill x e n w ≡ (ok p, w2)
        → (n ≡ 1) × (p ≡ record { event = e; inserted = true; settled = false }) × (w2 ≡ w)
    unfolding after_fill
    after_fill-ok n w h = ground arith

    first_delivery-ok :
        (w : World Numeric Decimal) {p : Persisted x} {w2 : World Numeric Decimal}
        → first_delivery x resp e w ≡ (ok p, w2)
        → (p ≡ record { event = e; inserted = true; settled = false })
          × Filled (date_in (get_text resp.order_day)) (get_int resp.ref_id) e w.db w2.db
    unfolding first_delivery fill_step
    first_delivery-ok w {p} {w2} h =
        let stmt = fill_order x (get_text resp.order_day) (get_int resp.ref_id) e in
        let (n, w1, ran, rest) = bind-ok (fill_step x resp e) (after_fill x e) w h in
        let (d, s, at) =
          exec-ok x stmt w (annotate-ok x (codes "update order") (exec x stmt) w ran) in
        let (one, pe, we) = after_fill-ok n w1 rest in
        (
          pe,
          rw (ap (λ (v : World Numeric Decimal). v.db) (we ∙ at)) (
              fill_order-some (get_text resp.order_day) (get_int resp.ref_id) e w.db d
                (s ∙ ap (λ (k : ℕ). some (k, d)) one)),
        )

    redelivery-ok :
        (w : World Numeric Decimal) {p : Persisted x} {w2 : World Numeric Decimal}
        → redelivery x e w ≡ (ok p, w2)
        → (s : Bool) × (p ≡ record { event = e; inserted = false; settled = s })
          × AlreadyStored e s w.db
          × (w2.db ≡ w.db)
    unfolding redelivery read_step
    redelivery-ok w {p} {w2} h =
        let (s, w1, ran, rest) = bind-ok (read_step x e) (after_read x e) w h in
        let (q, at) =
          query-ok x (read_settled x e) w
            (annotate-ok x (codes "read settled state") (query x (read_settled x e)) w ran) in
        (s, cc, read_settled-ok e w.db q, cc)

    after_insert-ok :
        (n : ℕ) (w : World Numeric Decimal) {p : Persisted x} {w2 : World Numeric Decimal}
        → after_insert x resp e n w ≡ (ok p, w2)
        → ((n ≡ 0) × (redelivery x e w ≡ (ok p, w2)))
          ⊎ ((n ≢ 0) × (first_delivery x resp e w ≡ (ok p, w2)))
    unfolding after_insert
    after_insert-ok n w h = ground arith

    persisted_again :
        (d d1 d2 : Db Numeric) (p : Persisted x) (s : Bool)
        → p ≡ record { event = e; inserted = false; settled = s }
        → AlreadyStored e s d1
        → d2 ≡ d1
        → d1 ≡ d
        → PersistedAs resp e p d d2
    persisted_again d d1 d2 p s pe stored same2 same =
        rw pe (refl, inr (refl, subst (AlreadyStored e s) same stored, same2 ∙ same))

    persisted_first :
        (clock : Stamp) (row : TradeRow Numeric) (d d1 d2 : Db Numeric) (p : Persisted x)
        → p ≡ record { event = e; inserted = true; settled = false }
        → new_row x e (get_int resp.ref_id) (parse_rfc3339 (get_text resp.executed_at)) clock
          ≡ some row
        → find_trade row.key d.trades ≡ none
        → d1 ≡ record d { trades = row ∷ d.trades }
        → Filled (date_in (get_text resp.order_day)) (get_int resp.ref_id) e d1 d2
        → PersistedAs resp e p d d2
    persisted_first clock row d d1 d2 p pe made fresh at
          (day, day_eq, order, order_eq, left, left_eq, at2) =
        let orders_at = ap (λ (v : Db Numeric). v.orders) at in
        rw pe (
          refl,
          inl (
            refl,
            refl,
            record {
              row = row;
              clock = clock;
              row_eq = made;
              fresh = fresh;
              trades_eq =
                  ap (λ (v : Db Numeric). v.trades) at2 ∙ ap (λ (v : Db Numeric). v.trades) at;
              day = day;
              day_eq = day_eq;
              order = order;
              order_eq = rw orders_at at order_eq;
              left = left;
              left_eq = left_eq;
              orders_eq = rw (← orders_at) (ap (λ (v : Db Numeric). v.orders) at2);
              recons_eq =
                  ap (λ (v : Db Numeric). v.recons) at2 ∙ ap (λ (v : Db Numeric). v.recons) at;
            },
          ),
        )

    pub store_trade-ok :
        (w : World Numeric Decimal) {p : Persisted x} {w2 : World Numeric Decimal}
        → store_trade x resp e w ≡ (ok p, w2)
        → PersistedAs resp e p w.db w2.db
    unfolding store_trade
    store_trade-ok w {p} {w2} h =
        let (n, w1, ran, rest) = bind-ok (insert_step x resp e) (after_insert x resp e) w h in
        elim (after_insert-ok n w1 rest) [
          | inl (zero_rows, again) ↦ elim (insert_step-ok w ran) [
            | inl (_, same) ↦
                let (s, pe, stored, same2) = redelivery-ok w1 again in
                persisted_again w.db w1.db w2.db p s pe stored same2 same
            | inr one ↦ absurd (omega (arith, zero_rows, one.0))
          ]
          | inr (some_rows, first) ↦ elim (insert_step-ok w ran) [
            | inl (none_stored, _) ↦ absurd (some_rows none_stored)
            | inr (_, row, made, fresh, at) ↦
                let (pe, filled) = first_delivery-ok w1 first in
                persisted_first (x.now w.tick) row w.db w1.db w2.db p pe made fresh at filled
          ]
        ]
