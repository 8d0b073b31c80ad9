-- ===== src/Errors.antt =====
-- Errors and results: the sentinel errors of go/v1/types.go and go/v1/decimal.go, the errors made in
-- place by `fmt.Errorf` and `errors.New`, and what the code tests of the errors of other packages.
use fx_sdk.Common.{if◌then◌else◌, Text, Bool, ◌≡◌, refl, ap}

-- The gRPC status codes that the code tells apart; every other code is `other_code`.
pub data Code : Type 0 where
  unavailable resource_exhausted other_code : Code

pub data Error : Type 0 where
  duplicate_order client_id_required partner_id_required limit_rate_required : Error
  invalid_order_type invalid_counterparty_segment treasury_counterparty_only : Error
  invalid_hour : Error
  segment_required order_id_required order_day_required : Error
  -- `fmt.Errorf("%w: %q", ErrInvalidDay, day)`
  invalid_day : Text → Error
  -- `ErrInvalidRecoverRange`, of an inverted and of a too wide range
  inverted_range too_wide_range : Error
  -- `fmt.Errorf("%w: %s = %q", ErrDecimalPrecision, field, value)`
  decimal_precision : Text → Text → Error
  -- `fmt.Errorf("...: %w", err)` with the words before the colon
  context : Text → Error → Error
  -- what other packages return: a text that is no decimal, a failed division, the database, the end
  -- of a stream, a gRPC status, a cancelled context, the partner's handler
  malformed_decimal division_failed database_failed no_rows eof context_cancelled : Error
  rpc_failed : Code → Error
  handler_failed : Text → Error
  -- what `New` refuses: a target, an SDK id, a key or a database that is not given
  target_required sdk_id_invalid api_key_required db_required : Error
  -- `fmt.Errorf("expected 1 row affected, got %d", ...)`
  rows_affected : Error

pub data Result {ℓ} (A : Type ℓ) : Type ℓ where
  ok : A → Result A
  err : Error → Result A

infixl 5 ◌>>=◌
abbrev pub ◌>>=◌ {ℓ κ} : {A : Type ℓ} {B : Type κ} → Result A → (A → Result B) → Result B
ok a >>= f = f a
err e >>= f = err e

infixl 5 ◌>>◌
abbrev pub ◌>>◌ {ℓ} : {B : Type ℓ} → Result (Unit {0}) → Result B → Result B
check >> rest = check >>= λ _. rest

-- `fmt.Errorf("words: %w", err)` on the error case.
abbrev pub wrap {ℓ} : {A : Type ℓ} → Text → Result A → Result A
wrap words (ok a) = ok a
wrap words (err e) = err (context words e)

-- An early return: the error stands unless the test holds.
abbrev pub guard : Bool → Error → Result (Unit {0})
guard holds why = if holds then ok tt else err why

-- The value of a result that is known to be one.
value_or {ℓ} : {A : Type ℓ} → A → Result A → A
value_or d (ok a) = a
value_or d (err e) = d

pub ok-injective {ℓ} : {A : Type ℓ} {a b : A} → ok a ≡ ok b → a ≡ b
unfolding value_or
ok-injective {a} h = ap (value_or a) h

-- A chain that succeeds has a first step that does.
pub step_ok {ℓ κ} :
    {A : Type ℓ} {B : Type κ} (step : Result A) (next : A → Result B) {out : B}
    → (step >>= next) ≡ ok out
    → (mid : A) × (step ≡ ok mid) × (next mid ≡ ok out)
step_ok (err why) next ran = cc
step_ok (ok mid) next ran = (mid, refl, ran)
