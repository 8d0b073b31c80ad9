-- ===== src/Client/Later.antt =====
-- How the state of a client may grow: the database from one state to a later one, and what has left the
-- SDK in between, all of it backed by what is stored.

use fx_sdk.Reconcile.Recorded.{is_recorded}
use mathlib.Core.List.{append_assoc}
use mathlib.Core.Path.{subst}
use fx_sdk.Reconcile.Closed.{is_closed}
use fx_sdk.Time.Layout.{format_day}
use fx_sdk.Store.Laws.{exec-db, trace-exec}
use fx_sdk.Wire.{SubmitOrderRequest}
use fx_sdk.Errors.{Result, err, ok}
use fx_sdk.Platform.{Platform}
use fx_sdk.Order.Terms.{OrdersKept, OrdersKept-refl, OrdersKept-trans}
use fx_sdk.Trade.Progress.{NamesStored}
use fx_sdk.Trade.Extends.{Extends, Extends-eq, Extends-refl, Extends-trans}
use fx_sdk.Time.Date.{Date}
use fx_sdk.Common.{
  All, All-append, List, Option, Text, [], ap, arith, inl, inr, refl, some, sym, true, ℤ, ◌++◌, ◌∙◌,
  ◌∷◌, ◌≡◌,
}
use fx_sdk.Store.{
  Action, Db, Effect, OrderRow, World, acked, advance, annotate, annotate_result, cancel_sent, emit,
  exec, find_order, handled, notified, query, submitted, ◌>>=◌,
}

module _ {N : Type 0} where
  -- From one database to a later one: no trade, order or reconciliation is lost, their values stay, the flags and
  -- the closed hours are never taken back.
  pub record Later (a b : Db N) : Type 0 where
    pub trades : Extends a.trades b.trades
    pub orders : OrdersKept a.orders b.orders
    pub recorded :
        (day : Date) (hour : ℤ)
        → is_recorded day hour a.recons ≡ true
        → is_recorded day hour b.recons ≡ true
    pub closed :
        (day : Date) (hour : ℤ)
        → is_closed day hour a.recons ≡ true
        → is_closed day hour b.recons ≡ true

  pub Later-refl : (a : Db N) → Later a a
  Later-refl a = record {
    trades = Extends-refl a.trades;
    orders = OrdersKept-refl a.orders;
    recorded = λ day hour h. h;
    closed = λ day hour h. h;
  }

  pub Later-trans : {a b c : Db N} → Later a b → Later b c → Later a c
  Later-trans h k = record {
    trades = Extends-trans h.trades k.trades;
    orders = OrdersKept-trans h.orders k.orders;
    recorded = λ day hour u. k.recorded day hour (h.recorded day hour u);
    closed = λ day hour u. k.closed day hour (h.closed day hour u);
  }

  pub Later-eq : {a b : Db N} → b ≡ a → Later a b
  Later-eq {a} h = subst (Later a) (sym h) (Later-refl a)

  -- A write to one table.
  pub Later-trades :
      (a b : Db N)
      → Extends a.trades b.trades
      → b.orders ≡ a.orders
      → b.recons ≡ a.recons
      → Later a b
  Later-trades a b h o r = record {
    trades = h;
    orders = subst (OrdersKept a.orders) (sym o) (OrdersKept-refl a.orders);
    recorded = λ day hour u. rw r u;
    closed = λ day hour u. rw r u;
  }

  pub Later-orders :
      (a b : Db N)
      → OrdersKept a.orders b.orders
      → b.trades ≡ a.trades
      → b.recons ≡ a.recons
      → Later a b
  Later-orders a b h t r = record {
    trades = Extends-eq t;
    orders = h;
    recorded = λ day hour u. rw r u;
    closed = λ day hour u. rw r u;
  }

module _ (x : Platform) where
  open x use {Decimal, Numeric}

  -- The stored order that a request names, with the terms that the request carries.
  pub record NamesOrder (os : List (OrderRow Numeric)) (req : SubmitOrderRequest) : Type 0 where
    pub day : Date
    pub ref : ℤ
    pub order : OrderRow Numeric
    pub found : find_order day ref os ≡ some order
    pub ref_eq : req.ref_id ≡ some ref
    pub day_eq : req.order_day ≡ some (format_day day)
    pub side_eq : req.side ≡ some order.side
    pub segment_eq : req.segment ≡ some order.segment
    pub type_eq : req.order_type ≡ some order.order_type
    pub counterparty_eq : req.counterparty_segment ≡ some order.counterparty_segment
    pub pair_eq : req.currency_pair ≡ some order.currency_pair
    pub partner_eq : req.partner_id ≡ some order.partner_id
    pub client_eq : req.client_id ≡ some order.client_id
    pub inn_eq : req.client_inn ≡ some order.client_inn

  -- What may leave the SDK at a database: acks of stored trades, and requests for stored orders.
  abbrev pub Backed : Db Numeric → Effect Decimal → Type 0
  Backed d (acked req) = NamesStored x d.trades req
  Backed d (submitted req) = NamesOrder d.orders req
  Backed d (handled e) = Unit
  Backed d (cancel_sent r) = Unit
  Backed d (notified e) = Unit

  NamesOrder-OrdersKept :
      {a b : List (OrderRow Numeric)} (req : SubmitOrderRequest)
      → OrdersKept a b
      → NamesOrder a req
      → NamesOrder b req
  NamesOrder-OrdersKept req h n =
      let (p, found, same) = h.kept n.day n.ref n.order n.found in
      record {
        day = n.day;
        ref = n.ref;
        order = p;
        found = found;
        ref_eq = n.ref_eq;
        day_eq = n.day_eq;
        side_eq = n.side_eq ∙ ap some (sym same.side_same);
        segment_eq = n.segment_eq ∙ ap some (sym same.segment_same);
        type_eq = n.type_eq ∙ ap some (sym same.type_same);
        counterparty_eq = n.counterparty_eq ∙ ap some (sym same.counterparty_same);
        pair_eq = n.pair_eq ∙ ap some (sym same.pair_same);
        partner_eq = n.partner_eq ∙ ap some (sym same.partner_same);
        client_eq = n.client_eq ∙ ap some (sym same.client_same);
        inn_eq = n.inn_eq ∙ ap some (sym same.inn_same);
      }

  pub Backed-Later : {a b : Db Numeric} → Later a b → (s : Effect Decimal) → Backed a s → Backed b s
  Backed-Later h (acked req) (k, r, found, same, day) =
      let (t, found_t, _) = h.trades.stays k r found in (k, t, found_t, same, day)
  Backed-Later h (submitted req) n = NamesOrder-OrdersKept req h.orders n
  Backed-Later h (handled e) u = tt
  Backed-Later h (cancel_sent r) u = tt
  Backed-Later h (notified e) u = tt

  pub AllBacked-Later :
      {a b : Db Numeric}
      → Later a b
      → (ss : List (Effect Decimal)) → All (Backed a) ss
      → All (Backed b) ss
  AllBacked-Later h [] u = tt
  AllBacked-Later h (s ∷ ss) u = (Backed-Later h s u.0, AllBacked-Later h ss u.1)

  -- From one state of a run to a later one.
  pub record Follows (w w1 : World Numeric Decimal) : Type 0 where
    pub later : Later w.db w1.db
    pub sent : List (Effect Decimal)
    pub trace_eq : w1.trace ≡ sent ++ w.trace
    pub backed : All (Backed w1.db) sent

  pub Follows-refl : (w : World Numeric Decimal) → Follows w w
  Follows-refl w = record { later = Later-refl w.db; sent = []; trace_eq = refl; backed = tt }

  pub Follows-trans :
      {w1 w2 w3 : World Numeric Decimal} → Follows w1 w2 → Follows w2 w3 → Follows w1 w3
  Follows-trans {w1} {w2} {w3} h k = record {
    later = Later-trans h.later k.later;
    sent = k.sent ++ h.sent;
    trace_eq =
        k.trace_eq
        ∙ ap (λ (t : List (Effect Decimal)). k.sent ++ t) h.trace_eq
        ∙ sym (append_assoc k.sent h.sent w1.trace);
    backed =
        All-append (Backed w3.db) k.sent h.sent k.backed (AllBacked-Later k.later h.sent h.backed);
  }

  -- A step that sends nothing.
  pub Follows-quiet :
      (w w1 : World Numeric Decimal) → Later w.db w1.db → w1.trace ≡ w.trace → Follows w w1
  Follows-quiet w w1 h same = record { later = h; sent = []; trace_eq = same; backed = tt }

  -- A step that sends one thing, from the database as it is.
  pub Follows-emit :
      (s : Effect Decimal) (w : World Numeric Decimal)
      → Backed w.db s
      → Follows w (emit s (advance w))
  Follows-emit s w h = record {
    later = Later-refl w.db;
    sent = s ∷ [];
    trace_eq = refl;
    backed = (h, tt);
  }

  -- An action is steady if every run of it is such a step.
  pub record Steady {A : Type 0} (m : Action x A) : Type 0 where
    pub follows : (w : World Numeric Decimal) → Follows w (m w).1

  pub Steady-bind :
      {A B : Type 0} (m : Action x A) (f : A → Action x B)
      → Steady m
      → ((a : A) → Steady (f a))
      → Steady (m >>= f)
  Steady-bind {A} {B} m f hm hf = record { follows = λ w. go w (m w) (hm.follows w) }
    where
      go :
          (w : World Numeric Decimal) (r : Result A × World Numeric Decimal)
          → Follows w r.1
          → Follows w
              (elim r.0 as (λ _. Result B × World Numeric Decimal) [
                | ok a ↦ f a r.1
                | err e ↦ (err e, r.1)
              ]).1
      go w (ok a, w1) h = Follows-trans h ((hf a).follows w1)
      go w (err e, w1) h = h

  pub Steady-annotate :
      {A : Type 0} (words : Text) (m : Action x A) → Steady m → Steady (annotate x words m)
  Steady-annotate {A} words m h = record { follows = λ w. go w (m w) (h.follows w) }
    where
      go :
          (w : World Numeric Decimal) (r : Result A × World Numeric Decimal)
          → Follows w r.1
          → Follows w (annotate_result x words r).1
      go w (ok a, w1) f = f
      go w (err e, w1) f = f

  -- A statement that only reads, and one that may write.
  pub Steady-query : {A : Type 0} (q : Db Numeric → Result A) → Steady (query x q)
  unfolding query
  Steady-query q = record {
    follows = λ w. Follows-quiet w (query x q w).1 (Later-eq (ground arith)) (ground arith);
  }

  pub Steady-exec :
      {A : Type 0} (s : Db Numeric → Option (A × Db Numeric))
      → ((d : Db Numeric) (a : A) (d' : Db Numeric) → s d ≡ some (a, d') → Later d d')
      → Steady (exec x s)
  Steady-exec s h = record {
    follows = λ w.
        Follows-quiet w (exec x s w).1
          (elim (exec-db x s w) [
            | inl same ↦ Later-eq same
            | inr (a, d, ran, at) ↦ rw at (h w.db a d ran)
          ])
          (trace-exec x s w);
  }
