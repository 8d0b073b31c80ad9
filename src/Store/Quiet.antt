-- ===== src/Store/Quiet.antt =====
-- Actions that send nothing: database calls, and what is made of such.

use fx_sdk.Store.Laws.{trace-exec}
use fx_sdk.Errors.{Result, err, ok}
use fx_sdk.Platform.{Outcome, Platform, done, in_doubt, refused}
use fx_sdk.Store.Tables.{Db}
use fx_sdk.Common.{Bool, Option, Text, arith, false, if◌then◌else◌, refl, true, ◌∙◌, ◌≡◌}
use fx_sdk.Store.Calls.{
  Action, World, advance, annotate, annotate_result, begin_with, commit_with, exec, finish, lift,
  query, transaction, ◌>>=◌,
}

-- `m` leaves the trace as it is.
pub record Quiet {N D A : Type 0} (m : World N D → Result A × World N D) : Type 0 where
  pub same : (w : World N D) → (m w).1.trace ≡ w.trace

module _ {N D A : Type 0} where
  pub Quiet-bind :
      {B : Type 0} (m : World N D → Result A × World N D) (f : A → World N D → Result B × World N D)
      → Quiet m
      → ((a : A) → Quiet (f a))
      → Quiet (m >>= f)
  Quiet-bind {B} m f hm hf = record { same = λ w. go (m w) w (hm.same w) }
    where
      go :
          (r : Result A × World N D) (w : World N D)
          → r.1.trace ≡ w.trace
          → (elim r.0 as (λ _. Result B × World N D) [
            | ok a ↦ f a r.1
            | err e ↦ (err e, r.1)
          ]).1.trace
            ≡ w.trace
      go (ok a, w1) w h = (hf a).same w1 ∙ h
      go (err e, w1) w h = h

module _ (x : Platform) {A : Type 0} where
  pub Quiet-exec : (s : Db x.Numeric → Option (A × Db x.Numeric)) → Quiet (exec x s)
  Quiet-exec s = record { same = trace-exec x s }

  pub Quiet-query : (q : Db x.Numeric → Result A) → Quiet (query x q)
  unfolding query
  Quiet-query q = record { same = λ w. ground arith }

  pub Quiet-annotate : (words : Text) (m : Action x A) → Quiet m → Quiet (annotate x words m)
  Quiet-annotate words m h = record { same = λ w. go (m w) w (h.same w) }
    where
      go :
          (r : Result A × World x.Numeric x.Decimal) (w : World x.Numeric x.Decimal)
          → r.1.trace ≡ w.trace
          → (annotate_result x words r).1.trace ≡ w.trace
      go (ok a, w1) w h = h
      go (err e, w1) w h = h

  pub Quiet-lift : (r : Result A) → Quiet (lift x r)
  Quiet-lift r = record { same = λ w. refl }

  pub Quiet-if : (b : Bool) (m n : Action x A) → Quiet m → Quiet n → Quiet (if b then m else n)
  Quiet-if true m n hm hn = hm
  Quiet-if false m n hm hn = hn

  pub Quiet-transaction : (body : Action x A) → Quiet body → Quiet (transaction x body)
  unfolding transaction
  Quiet-transaction body h = record { same = λ w. go (x.outcome w.tick) w }
    where
      last :
          (o : Outcome) (a : A) (w w1 w2 : World x.Numeric x.Decimal)
          → w2.trace ≡ w.trace
          → (commit_with o a w1 w2).1.trace ≡ w.trace
      last done a w w1 w2 j = j
      last refused a w w1 w2 j = j
      last in_doubt a w w1 w2 j = j

      after :
          (r : Result A × World x.Numeric x.Decimal) (w : World x.Numeric x.Decimal)
          → r.1.trace ≡ w.trace
          → (finish x r.0 (advance w) r.1).1.trace ≡ w.trace
      after (err e, w2) w j = j
      after (ok a, w2) w j = last (x.outcome w2.tick) a w (advance w) (advance w2) j

      go :
          (o : Outcome) (w : World x.Numeric x.Decimal)
          → (begin_with x o body (advance w)).1.trace ≡ w.trace
      go done w = after (body (advance w)) w (h.same (advance w))
      go refused w = refl
      go in_doubt w = refl
