-- ===== src/Types/Runs.antt =====
-- The parameters and results of reconciliation, repair and recovery (go/v1/types.go).
use fx_sdk.Common.{
  ◌≡◌, ◌↔◌, refl, ℕ, ℤ, Text, Bool, true, false, ◌||◌, not, Option, none, some, List, [], ◌∷◌,
}
use fx_sdk.Types.Trades.{Trade, LocalTrade}

pub record ReconcileParams : Type 0 where
  pub partner_id : Text
  pub day : Text
  pub hour : ℤ

pub record ReconcileResult : Type 0 where
  pub day : Text
  pub hour : ℤ
  pub local_hash : ℤ
  pub remote_hash : ℤ
  pub hash_version : ℕ
  pub local_trades : ℤ
  pub remote_trades : ℤ
  pub matched : Bool
  pub done : Bool

-- The field `CheckedAt`, a reading of the clock, is left out.
pub record ReconcileInfo : Type 0 where
  pub local_hash : ℤ
  pub remote_hash : ℤ
  pub hash_version : ℕ
  pub local_trades : ℤ
  pub remote_trades : ℤ
  pub dt_from : Text
  pub dt_to : Text
  pub local_hash_v1 : ℤ
  pub remote_hash_v1 : ℤ

pub record GetTradesParams : Type 0 where
  pub partner_id : Text
  pub day : Text
  pub dt_from : Text
  pub dt_to : Text

pub record TradeMismatch : Type 0 where
  pub trade_id : ℤ
  pub order_id : ℤ
  pub fields : List Text
  pub core : Trade
  pub local : LocalTrade

pub record TradeDiff : Type 0 where
  pub day : Text
  pub hour : ℤ
  pub core_trades : ℕ
  pub local_trades : ℕ
  pub missing_locally : List Trade
  pub missing_remotely : List LocalTrade
  pub mismatched : List TradeMismatch
  pub unsettled : List LocalTrade

abbrev is_nil {ℓ} : {A : Type ℓ} → List A → Bool
is_nil [] = true
is_nil (_ ∷ _) = false

-- `Divergent`
unfoldable pub divergent : TradeDiff → Bool
divergent d =
    not (is_nil d.missing_locally) || not (is_nil d.missing_remotely) || not (is_nil d.mismatched)

none_of :
    {A B C : Type 0} (l : List A) (m : List B) (n : List C)
    → ((not (is_nil l) || not (is_nil m) || not (is_nil n)) ≡ false)
      ↔ ((l ≡ []) × ((m ≡ []) × (n ≡ [])))
none_of [] [] [] = ((λ h. (refl, (refl, refl))), λ h. refl)
none_of [] [] (c ∷ n) = ((λ h. cc), λ h. let no = h.1.1 in cc)
none_of [] (b ∷ m) n = ((λ h. cc), λ h. let no = h.1.0 in cc)
none_of (a ∷ l) m n = ((λ h. cc), λ h. let no = h.0 in cc)

pub divergent-false :
    (d : TradeDiff)
    → (divergent d ≡ false)
      ↔ ((d.missing_locally ≡ []) × ((d.missing_remotely ≡ []) × (d.mismatched ≡ [])))
unfolding divergent
divergent-false d = none_of d.missing_locally d.missing_remotely d.mismatched

pub record RepairResult : Type 0 where
  pub day : Text
  pub hour : ℤ
  pub before : Option ReconcileResult
  pub after : Option ReconcileResult
  pub core_trades : ℕ
  pub recovered : ℕ
  pub settled : ℕ
  pub settle_failed : ℕ
  pub failed : ℕ

abbrev pub was_matched : Option ReconcileResult → Bool
was_matched none = false
was_matched (some r) = r.matched

-- `Resolved`
unfoldable pub resolved : RepairResult → Bool
resolved r = was_matched r.before || was_matched r.after

pub record RecoverParams : Type 0 where
  pub partner_id : Text
  pub day_from : Text
  pub day_to : Text

pub record RecoverResult : Type 0 where
  pub days : List Text
  pub core_trades : ℕ
  pub recovered : ℕ
  pub settled : ℕ
  pub settle_failed : ℕ
  pub failed : ℕ
