-- ===== src/Retry/Unary.antt =====
-- `retryUnaryInterceptor` of go/v1/retry.go.

use fx_sdk.Retry.Backoff.{signed_word}
use native.Mathlib.Decide.{dec_lt}
use mathlib.Core.Path.{subst}
use fx_sdk.Retry.{is_retryable}
use fx_sdk.Errors.{Error, context_cancelled}
use fx_sdk.Common.{
  Bool, Option, ap, arith, false, if◌then◌else◌, inl, none, not, pos_part, some, suc, sym, true,
  zero, ℕ, ℤ, ◌+◌, ◌<◌, ◌≡◌, ◌≤◌, ◌⊎◌, refl, inr, negsuc, pos, ◌%◌, ◌^◌,
}

-- What the loop meets: how the call of each attempt ends (`none` is success), and whether the context
-- is done before the wait after an attempt is over.
pub record Script : Type 0 where
  pub invoke : ℕ → Option Error
  pub cancelled : ℕ → Bool

-- After the call of an attempt that is not the last; `more` is the rest of the loop.
abbrev after_call : Script → ℕ → Option Error × ℕ → Option Error → Option Error × ℕ
after_call s attempt more none = (none, attempt + 1)
after_call s attempt more (some e) =
    if not (is_retryable e)
    then (some e, attempt + 1)
    else if s.cancelled attempt
    then (some context_cancelled, attempt + 1)
    else more

-- The loop with `left` attempts after this one; with the number of calls made.
unfoldable pub retry_from : Script → ℕ → ℕ → Option Error × ℕ
unfolding is_retryable
retry_from s zero attempt = (s.invoke attempt, attempt + 1)
retry_from s (suc left) attempt =
    after_call s attempt (retry_from s left (attempt + 1)) (s.invoke attempt)

-- `range limit + 1` over 64-bit integers: past the largest of them the sum is negative, and the loop is
-- not entered, so that `err` is still nil.
abbrev range_over : Script → ℤ → Option Error × ℕ
range_over s (pos zero) = (none, 0)
range_over s (pos (suc limit)) = retry_from s limit 0
range_over s (negsuc n) = (none, 0)

-- `retryUnaryInterceptor`: `limit := max(maxRetries, 0)`.
unfoldable pub retry_unary : Script → ℤ → Option Error × ℕ
unfolding retry_from
retry_unary s max_retries = range_over s (signed_word ((pos_part max_retries + 1) % 2 ^ 64))

-- Every attempt before the last failed in a way that is retried, and was waited out.
abbrev pub WasRetried : Script → ℕ → Type 0
WasRetried s k =
    (e : Error) × (s.invoke k ≡ some e) × (is_retryable e ≡ true) × (s.cancelled k ≡ false)

-- What the loop returns after the call of the attempt `k`: the outcome of that call, which is a success, an
-- error that is not transient, or that of the attempt `top`, the last that is allowed; or the context's
-- error, if the context ended in the wait after a transient one.
abbrev pub EndsAt : Script → ℕ → ℕ → Option Error → Type 0
EndsAt s top k o =
    ((o ≡ s.invoke k)
      × ((s.invoke k ≡ none)
          ⊎ (((e : Error) × (s.invoke k ≡ some e) × (is_retryable e ≡ false)) ⊎ (k ≡ top))))
    ⊎ ((o ≡ some context_cancelled)
        × (s.cancelled k ≡ true)
        × (e : Error) × (s.invoke k ≡ some e)
        × (is_retryable e ≡ true))

pub record RetrySpec (s : Script) (first limit : ℕ) (r : Option Error × ℕ) : Type 0 where
  pub calls_pos : first < r.1
  pub calls_le : r.1 ≤ first + limit + 1
  pub before : (k : ℕ) → first ≤ k → k + 1 < r.1 → WasRetried s k
  pub last : (k : ℕ) → k + 1 ≡ r.1 → EndsAt s (first + limit) k r.0

retry_from_lem : (s : Script) (left first : ℕ) → RetrySpec s first left (retry_from s left first)
unfolding retry_from
retry_from_lem s zero first = record {
  calls_pos = omega arith;
  calls_le = omega arith;
  before = λ k h j. absurd (omega arith);
  last =
      λ k h. let e : k ≡ first = omega arith in inl (ap s.invoke (sym e), inr (inr (omega arith)));
}
retry_from_lem s (suc left) first = go (retry_from_lem s left (first + 1)) (s.invoke first) refl
  where
    ended :
        (o : Option Error)
        → EndsAt s (first + suc left) first o
        → RetrySpec s first (suc left) (o, first + 1)
    ended o why = record {
      calls_pos = omega arith;
      calls_le = omega arith;
      before = λ k h j. absurd (omega arith);
      last = λ k h.
          let e : first ≡ k = omega arith in
          subst (λ (i : ℕ). EndsAt s (first + suc left) i o) e why;
    }

    later :
        RetrySpec s (first + 1) left (retry_from s left (first + 1))
        → WasRetried s first
        → RetrySpec s first (suc left) (retry_from s left (first + 1))
    later rest was =
        let top : first + 1 + left ≡ first + suc left = omega arith in
        record {
          calls_pos = omega (arith, rest.calls_pos);
          calls_le = omega (arith, rest.calls_le);
          before = λ k h j. elim (dec_lt first k) [
            | yes lt ↦ rest.before k (omega arith) j
            | no ge ↦ let e : first ≡ k = omega arith in subst (WasRetried s) e was
          ];
          last = λ k h.
              subst (λ (t : ℕ). EndsAt s t k (retry_from s left (first + 1)).0) top (rest.last k h);
        }

    tested :
        RetrySpec s (first + 1) left (retry_from s left (first + 1))
        → (e : Error) → s.invoke first ≡ some e
        → (b c : Bool) → is_retryable e ≡ b
        → s.cancelled first ≡ c
        → RetrySpec s first (suc left) (
            if not b
            then (some e, first + 1)
            else if c
            then (some context_cancelled, first + 1)
            else retry_from s left (first + 1))
    tested rest e h false c hb hc = ended (some e) (inl (sym h, inr (inl (e, h, hb))))
    tested rest e h true true hb hc = ended (some context_cancelled) (inr (refl, hc, e, h, hb))
    tested rest e h true false hb hc = later rest (e, h, hb, hc)

    go :
        RetrySpec s (first + 1) left (retry_from s left (first + 1))
        → (o : Option Error) → s.invoke first ≡ o
        → RetrySpec s first (suc left) (after_call s first (retry_from s left (first + 1)) o)
    go rest none h = ended none (inl (sym h, inl h))
    go rest (some e) h = tested rest e h (is_retryable e) (s.cancelled first) refl refl

range_over-pos :
    (s : Script) (n : ℕ)
    → n + 1 < 2 ^ 63
    → range_over s (signed_word ((n + 1) % 2 ^ 64)) ≡ retry_from s n 0
range_over-pos s n h =
    let same : signed_word ((n + 1) % 2 ^ 64) ≡ pos (suc n) = ground arith in ap (range_over s) same

-- If `max(maxRetries, 0) + 1` is a 64-bit integer, the interceptor calls at least once and at most that
-- often. Every call but the last failed with a transient error and was waited out. It returns the
-- outcome of the last call, and this is a success, an error that is not transient, or the outcome of the
-- last call that is allowed; or it returns the context's error, if the context ended in the wait after
-- a transient one.
pub retry_unary_bounds :
    (s : Script) (max_retries : ℤ)
    → pos_part max_retries + 1 < 2 ^ 63
    → RetrySpec s 0 (pos_part max_retries) (retry_unary s max_retries)
unfolding retry_unary
retry_unary_bounds s max_retries fits =
    rw (range_over-pos s (pos_part max_retries) fits) (retry_from_lem s (pos_part max_retries) 0)
