-- ===== src/Retry/Backoff.antt =====
-- `backoff` of go/v1/retry.go, on signed 64-bit durations.
use fx_sdk.Common.{
  arith, if◌then◌else◌, ltb, ltb_ℤ, negsuc, pos, suc, zero, ℕ, ℤ, ◌%◌, ◌*◌, ◌+◌, ◌-◌, ◌/◌, ◌<◌,
  ◌==◌, ◌^◌, ◌≡◌, ◌≤◌, ap, false, refl, true, ◌∙◌,
}
use native.Mathlib.Decide.{dec_lt}
use native.Mathlib.Nat.{mul-suc, pow-suc, one-le-pow}
use Prim.Native.Nat.{min}

-- The low 64 bits, read as a signed number.
abbrev pub signed_word : ℕ → ℤ
signed_word r = if ltb r (2 ^ 63) then pos r else negsuc (2 ^ 64 - r - 1)

-- `delay <<= 1`, which wraps.
unfoldable pub shift_left : ℤ → ℤ
shift_left (pos n) = signed_word ((n + n) % 2 ^ 64)
shift_left (negsuc n) = signed_word (2 ^ 64 - 1 - (n + n + 1) % 2 ^ 64)

-- `for i := 0; i < attempt && delay < max; i++ { delay <<= 1 }`
unfoldable pub doublings : ℕ → ℤ → ℤ → ℤ
unfolding shift_left
doublings zero delay max = delay
doublings (suc n) delay max =
    let more = doublings n (shift_left delay) max in if ltb_ℤ delay max then more else delay

abbrev min_ℤ : ℤ → ℤ → ℤ
min_ℤ a b = if ltb_ℤ b a then b else a

-- `delay / 2`, towards zero
abbrev half : ℤ → ℤ
half (pos n) = pos (n / 2)
half (negsuc n) = if n == 0 then pos 0 else negsuc ((n + 1) / 2 - 1)

-- The last lines; `draw n` is `rand.Int64N(n)`.
unfoldable pub jitter : (ℕ → ℕ) → ℤ → ℤ → ℤ
jitter draw delay (pos (suc h)) = pos (suc h + draw (suc h))
jitter draw delay _ = delay

-- `backoff`
unfoldable pub backoff : (ℕ → ℕ) → ℕ → ℤ → ℤ → ℤ
unfolding doublings jitter
backoff draw attempt base max =
    let delay = min_ℤ (doublings attempt base max) max in jitter draw delay (half delay)

shift_left-pos : (n : ℕ) → n < 2 ^ 62 → shift_left (pos n) ≡ pos (n + n)
unfolding shift_left
shift_left-pos n h = ground arith

doublings-step :
    (n d m : ℕ)
    → m ≤ 2 ^ 62
    → d < m
    → doublings (suc n) (pos d) (pos m) ≡ doublings n (pos (d + d)) (pos m)
unfolding doublings
doublings-step n d m h lt =
    let test : ltb_ℤ (pos d) (pos m) ≡ true = ground arith in
    let shifted : shift_left (pos d) ≡ pos (d + d) = shift_left-pos d (omega arith) in
    rw test (ap (λ (v : ℤ). doublings n v (pos m)) shifted)

doublings-stop : (n d m : ℕ) → m ≤ d → doublings (suc n) (pos d) (pos m) ≡ pos d
unfolding doublings
doublings-stop n d m h = let test : ltb_ℤ (pos d) (pos m) ≡ false = ground arith in rw test

min_ℤ-pos : (a b : ℕ) → min_ℤ (pos a) (pos b) ≡ pos (min a b)
min_ℤ-pos a b = ground arith

le-mul_pos : (d p : ℕ) → 1 ≤ p → d ≤ d * p
le-mul_pos d zero h = absurd (omega arith)
le-mul_pos d (suc q) h = rw mul-suc (omega arith)

doublings-capped :
    (n d m : ℕ) → m ≤ 2 ^ 62 → min_ℤ (doublings n (pos d) (pos m)) (pos m) ≡ pos (min (d * 2 ^ n) m)
doublings-capped zero d m h =
    unfold doublings in (min_ℤ-pos d m ∙ ap (λ (k : ℕ). pos (min k m)) (omega arith))
doublings-capped (suc n) d m h = elim (dec_lt d m) [
  | yes lt ↦ rw (doublings-step n d m h lt) (
      doublings-capped n (d + d) m h
      ∙ ap (λ (k : ℕ). pos (min k m)) (omega (arith, ap (λ (t : ℕ). d * t) (pow-suc 2 n))))
  | no ge ↦
      let one : 1 ≤ 2 ^ suc n = one-le-pow (suc n) 2 (omega arith) in
      let grows : d ≤ d * 2 ^ suc n = le-mul_pos d (2 ^ suc n) one in
      rw (doublings-stop n d m (omega arith)) (min_ℤ-pos d m ∙ ap (λ (k : ℕ). pos k) (omega arith))
]

-- The delay before jitter, in closed form.
abbrev pub capped : ℕ → ℕ → ℕ → ℕ
capped attempt base max = min (base * 2 ^ attempt) max

jitter-pos :
    (draw : ℕ → ℕ) (t : ℕ)
    → ((n : ℕ) → 0 < n → draw n < n)
    → (v : ℕ) × (jitter draw (pos t) (pos (t / 2)) ≡ pos v) × (t / 2 ≤ v) × (v ≤ t)
jitter-pos draw t h = go (t / 2) refl
  where
    go : (k : ℕ) → t / 2 ≡ k → (v : ℕ) × (jitter draw (pos t) (pos k) ≡ pos v) × (k ≤ v) × (v ≤ t)
    go zero e = (t, unfold jitter in refl, omega arith, omega arith)
    go (suc k) e = (
      suc k + draw (suc k),
      unfold jitter in refl,
      omega arith,
      omega (arith, h (suc k) (omega arith)),
    )

-- For a base and a cap that are not negative, and a cap of at most 2^62 nanoseconds, the delay of every
-- attempt lies between the half and the whole of `min(base * 2^attempt, max)`: it grows exponentially,
-- never passes the cap, is never negative, and no shift wraps.
pub backoff_bounds :
    (draw : ℕ → ℕ) (attempt base max : ℕ)
    → ((n : ℕ) → 0 < n → draw n < n)
    → max ≤ 2 ^ 62
    → (v : ℕ) × (backoff draw attempt (pos base) (pos max) ≡ pos v)
      × (capped attempt base max / 2 ≤ v)
      × (v ≤ capped attempt base max)
unfolding backoff
backoff_bounds draw attempt base max random h =
    rw (doublings-capped attempt base max h) (jitter-pos draw (capped attempt base max) random)

shift_left-wraps :
    (n : ℕ) → 2 ^ 62 ≤ n → n < 2 ^ 63 → shift_left (pos n) ≡ negsuc (2 ^ 64 - (n + n) - 1)
unfolding shift_left
shift_left-wraps n h k = ground arith

jitter-negative : (draw : ℕ → ℕ) (k : ℕ) → jitter draw (negsuc k) (half (negsuc k)) ≡ negsuc k
unfolding jitter
jitter-negative draw zero = refl
jitter-negative draw (suc k) = ground arith

min_ℤ-negative : (k m : ℕ) → min_ℤ (negsuc k) (pos m) ≡ negsuc k
min_ℤ-negative k m = ground arith

-- A cap past 2^62 lets the shift wrap: from a base between 2^62 and the cap, the delay of the attempt 1,
-- the second retry in a row, is negative, whatever is drawn.
pub backoff_wraps :
    (draw : ℕ → ℕ) (base max : ℕ)
    → 2 ^ 62 ≤ base
    → base < max
    → max < 2 ^ 63
    → (v : ℕ) × (backoff draw 1 (pos base) (pos max) ≡ negsuc v)
unfolding backoff doublings
backoff_wraps draw base max low lt high =
    let test : ltb_ℤ (pos base) (pos max) ≡ true = ground arith in
    (
      2 ^ 64 - (base + base) - 1,
      rw
          (
            test,
            shift_left-wraps base low (omega arith),
            min_ℤ-negative (2 ^ 64 - (base + base) - 1) max,
          )
          (jitter-negative draw (2 ^ 64 - (base + base) - 1)),
    )
