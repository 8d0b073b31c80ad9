-- ===== src/Store/Laws.antt =====
-- What a call, a chain of calls and a transaction tell of the database, for every outcome.

use fx_sdk.Store.Tables.{Db}
use fx_sdk.Common.{none, some, refl, ◌∙◌, ◌≡◌, inl, inr, arith, Option, some, ap}
use fx_sdk.Common.{Text, ◌≡◌, ◌⊎◌, ◌∙◌}
use fx_sdk.Errors.{Result, Error, err, ok}
use fx_sdk.Platform.{Platform, Outcome, done, refused, in_doubt}
use fx_sdk.Store.Calls.{
  ◌>>=◌, exec, query, exec_with, commit_with, begin_with, finish, transaction, World, Action,
  annotate, annotate_result, advance, query_with,
}

module _ {N D A B : Type 0} where
  pub bind-ok :
      (m : World N D → Result A × World N D) (f : A → World N D → Result B × World N D)
      (w : World N D) {b : B} {w2 : World N D}
      → (m >>= f) w ≡ (ok b, w2)
      → (a : A) × (w1 : World N D) × (m w ≡ (ok a, w1)) × (f a w1 ≡ (ok b, w2))
  bind-ok m f w {b} {w2} h = go (m w) refl h
    where
      go :
          (r : Result A × World N D)
          → m w ≡ r
          → elim r.0 [ ok a ↦ f a r.1 | err e ↦ (err e, r.1) ] ≡ (ok b, w2)
          → (a : A) × (w1 : World N D) × (m w ≡ (ok a, w1)) × (f a w1 ≡ (ok b, w2))
      go (ok a, w1) e h = (a, w1, e, h)
      go (err why, w1) e h = cc

  -- The other direction, for a first step that succeeds.
  pub bind_intro :
      (m : World N D → Result A × World N D) (f : A → World N D → Result B × World N D)
      (w : World N D) {a : A} {w1 : World N D}
      → m w ≡ (ok a, w1)
      → (m >>= f) w ≡ f a w1
  bind_intro m f w h = ap after h
    where
      after : Result A × World N D → Result B × World N D
      after (r, v) = elim r as (λ _. Result B × World N D) [ ok a ↦ f a v | err e ↦ (err e, v) ]

module _ (x : Platform) {A : Type 0} where
  pub annotate_intro :
      (words : Text) (m : Action x A) (w : World x.Numeric x.Decimal) {a : A}
      {w1 : World x.Numeric x.Decimal}
      → m w ≡ (ok a, w1)
      → annotate x words m w ≡ (ok a, w1)
  annotate_intro words m w h = ap (annotate_result x words) h

  pub exec_intro :
      (s : Db x.Numeric → Option (A × Db x.Numeric)) (w : World x.Numeric x.Decimal) {a : A}
      {d : Db x.Numeric}
      → x.outcome w.tick ≡ done
      → s w.db ≡ some (a, d)
      → exec x s w ≡ (ok a, record (advance w) { db = d })
  unfolding exec exec_with
  exec_intro s w h ran = rw h (rw ran refl)

  pub query_intro :
      (q : Db x.Numeric → Result A) (w : World x.Numeric x.Decimal)
      → x.outcome w.tick ≡ done
      → query x q w ≡ (q w.db, advance w)
  unfolding query query_with
  query_intro q w h = rw h refl

  pub annotate-ok :
      (words : Text) (m : Action x A) (w : World x.Numeric x.Decimal) {a : A}
      {w1 : World x.Numeric x.Decimal}
      → annotate x words m w ≡ (ok a, w1)
      → m w ≡ (ok a, w1)
  annotate-ok words m w {a} {w1} h = go (m w) refl h
    where
      go :
          (r : Result A × World x.Numeric x.Decimal)
          → m w ≡ r
          → annotate_result x words r ≡ (ok a, w1)
          → m w ≡ (ok a, w1)
      go (ok b, w2) e h = e ∙ h
      go (err why, w2) e h = cc

  pub exec-ok :
      (s : Db x.Numeric → Option (A × Db x.Numeric)) (w : World x.Numeric x.Decimal) {a : A}
      {w1 : World x.Numeric x.Decimal}
      → exec x s w ≡ (ok a, w1)
      → (d : Db x.Numeric) × (s w.db ≡ some (a, d)) × (w1 ≡ record (advance w) { db = d })
  unfolding exec
  exec-ok s w {a} {w1} h = go (x.outcome w.tick) (s w.db) refl h
    where
      go :
          (o : Outcome) (r : Option (A × Db x.Numeric))
          → s w.db ≡ r
          → exec_with o r (advance w) ≡ (ok a, w1)
          → (d : Db x.Numeric) × (s w.db ≡ some (a, d)) × (w1 ≡ record (advance w) { db = d })
      go done (some (b, d)) e h = (d, cc, cc)
      go done none e h = cc
      go refused none e h = cc
      go refused (some (b, d)) e h = cc
      go in_doubt none e h = cc
      go in_doubt (some (b, d)) e h = cc

  -- What a statement leaves: the database as it was, or as the statement makes it.
  pub exec-db :
      (s : Db x.Numeric → Option (A × Db x.Numeric)) (w : World x.Numeric x.Decimal)
      → ((exec x s w).1.db ≡ w.db)
        ⊎ ((a : A) × (d : Db x.Numeric) × (s w.db ≡ some (a, d)) × ((exec x s w).1.db ≡ d))
  unfolding exec
  exec-db s w = go (x.outcome w.tick) (s w.db) refl
    where
      go :
          (o : Outcome) (r : Option (A × Db x.Numeric))
          → s w.db ≡ r
          → ((exec_with o r (advance w)).1.db ≡ w.db)
            ⊎ ((a : A) × (d : Db x.Numeric) × (s w.db ≡ some (a, d))
                × ((exec_with o r (advance w)).1.db ≡ d))
      go done (some (b, d)) e = inr (b, d, e, refl)
      go done none e = inl refl
      go refused none e = inl refl
      go refused (some (b, d)) e = inl refl
      go in_doubt none e = inl refl
      go in_doubt (some (b, d)) e = inr (b, d, e, refl)

  -- No call changes what has left the SDK.
  pub trace-exec :
      (s : Db x.Numeric → Option (A × Db x.Numeric)) (w : World x.Numeric x.Decimal)
      → (exec x s w).1.trace ≡ w.trace
  unfolding exec
  trace-exec s w = ground arith

  pub query-ok :
      (q : Db x.Numeric → Result A) (w : World x.Numeric x.Decimal) {a : A}
      {w1 : World x.Numeric x.Decimal}
      → query x q w ≡ (ok a, w1)
      → (q w.db ≡ ok a) × (w1 ≡ advance w)
  unfolding query
  query-ok q w h = ground arith

  pub query-world :
      (q : Db x.Numeric → Result A) (w : World x.Numeric x.Decimal) → (query x q w).1 ≡ advance w
  unfolding query
  query-world q w = ground arith

  -- A transaction leaves the database as it was and fails, or as its body leaves it; then the body
  -- has succeeded, and the transaction has, unless the answer to the commit was lost.
  abbrev pub TransactionCases :
      Action x A → World x.Numeric x.Decimal → Result A × World x.Numeric x.Decimal → Type 0
  TransactionCases body w r =
      ((e : Error) × (r.0 ≡ err e) × (r.1.db ≡ w.db))
      ⊎ ((a : A) × (w2 : World x.Numeric x.Decimal) × (body (advance w) ≡ (ok a, w2))
          × (r.1.db ≡ w2.db)
          × ((r.0 ≡ ok a) ⊎ ((e : Error) × (r.0 ≡ err e))))

  pub transaction-cases :
      (body : Action x A) (w : World x.Numeric x.Decimal)
      → TransactionCases body w (transaction x body w)
  unfolding transaction
  transaction-cases body w = go (x.outcome w.tick)
    where
      last :
          (o : Outcome) (a : A) (w2 : World x.Numeric x.Decimal)
          → body (advance w) ≡ (ok a, w2)
          → TransactionCases body w (commit_with o a (advance w) (advance w2))
      last done a w2 e = inr (a, w2, e, refl, inl refl)
      last refused a w2 e = inl (_, refl, refl)
      last in_doubt a w2 e = inr (a, w2, e, refl, inr (_, refl))

      after :
          (r : Result A × World x.Numeric x.Decimal)
          → body (advance w) ≡ r
          → TransactionCases body w (finish x r.0 (advance w) r.1)
      after (err e, w2) h = inl (e, refl, refl)
      after (ok a, w2) h = last (x.outcome w2.tick) a w2 h

      go : (o : Outcome) → TransactionCases body w (begin_with x o body (advance w))
      go done = after (body (advance w)) refl
      go refused = inl (_, refl, refl)
      go in_doubt = inl (_, refl, refl)
