-- ===== src/Reconcile/Checksum.antt =====
-- `reconcileComparison` and `compareChecksums` of go/v1/reconcile.go.
use fx_sdk.Wire.{ReconciliationResponse, get_int}
use fx_sdk.Common.{
  Bool, Option, arith, eq_ℤ, eq_ℤ_iff, inl, inr, negsuc, none, refl, some, true, ℕ, ℤ, ◌&&◌, ◌↔◌,
  ◌≡◌, ◌⊎◌, pos,
}

pub record ReconcileComparison : Type 0 where
  pub local : ℤ
  pub remote : ℤ
  pub version : ℕ
  pub remote_trades : ℤ
  pub matched : Bool

abbrev fallback : ℤ → ReconciliationResponse → ReconcileComparison
fallback v1 resp = record {
  local = v1;
  remote = get_int resp.hash_check;
  version = 1;
  remote_trades = negsuc 0;
  matched = eq_ℤ v1 (get_int resp.hash_check);
}

abbrev by_presence : ℤ → ℤ → ℤ → ReconciliationResponse → Option ℤ → Option ℤ → ReconcileComparison
by_presence v1 v2 n resp (some h) (some k) = record {
  local = v2;
  remote = h;
  version = 2;
  remote_trades = k;
  matched = eq_ℤ v2 h && eq_ℤ n k;
}
by_presence v1 v2 n resp none k = fallback v1 resp
by_presence v1 v2 n resp (some h) none = fallback v1 resp

unfoldable pub compare_checksums : ℤ → ℤ → ℤ → ReconciliationResponse → ReconcileComparison
compare_checksums v1 v2 n resp = by_presence v1 v2 n resp resp.hash_v2 resp.trade_count

-- What a comparison says: against a Core that sends the tuple checksum and the count, whether both are the
-- same on the two sides, and otherwise whether the checksum over the ids is, that a Core which leaves it
-- out sends as zero.
abbrev pub Compared : ℤ → ℤ → ℤ → ReconciliationResponse → ReconcileComparison → Type 0
Compared v1 v2 n resp c =
    ((h : ℤ) × (k : ℤ) × (resp.hash_v2 ≡ some h)
      × (resp.trade_count ≡ some k)
      × (c.version ≡ 2)
      × (c.local ≡ v2)
      × (c.remote ≡ h)
      × (c.remote_trades ≡ k)
      × ((c.matched ≡ true) ↔ ((v2 ≡ h) × (n ≡ k))))
    ⊎ (((resp.hash_v2 ≡ none) ⊎ (resp.trade_count ≡ none))
        × (c.version ≡ 1)
        × (c.local ≡ v1)
        × (c.remote_trades ≡ negsuc 0)
        × ((c.matched ≡ true)
            ↔ ((resp.hash_check ≡ some v1) ⊎ ((resp.hash_check ≡ none) × (v1 ≡ pos 0)))))

-- The comparison against any answer: with the tuple checksum and the count, an hour matches exactly when
-- both agree, zero being a checksum like any other; without either of them, exactly when the checksum
-- over the ids agrees, where one that is not sent is zero. The version, the local checksum and the count
-- that are reported are those of the comparison that was made.
pub compare_checksums-Compared :
    (v1 v2 n : ℤ) (resp : ReconciliationResponse)
    → Compared v1 v2 n resp (compare_checksums v1 v2 n resp)
unfolding compare_checksums
compare_checksums-Compared v1 v2 n resp = go resp.hash_v2 resp.trade_count refl refl
  where
    by_ids :
        (o : Option ℤ)
        → (eq_ℤ v1 (get_int o) ≡ true) ↔ ((o ≡ some v1) ⊎ ((o ≡ none) × (v1 ≡ pos 0)))
    by_ids none = ground (arith, eq_ℤ_iff v1 (pos 0))
    by_ids (some h) = ground (arith, eq_ℤ_iff v1 h)

    go :
        (h k : Option ℤ)
        → resp.hash_v2 ≡ h
        → resp.trade_count ≡ k
        → Compared v1 v2 n resp (by_presence v1 v2 n resp h k)
    go (some h) (some k) p q =
        inl (h, k, p, q, refl, refl, refl, refl, ground (arith, eq_ℤ_iff v2 h, eq_ℤ_iff n k))
    go none k p q = inr (inl p, refl, refl, refl, by_ids resp.hash_check)
    go (some h) none p q = inr (inr q, refl, refl, refl, by_ids resp.hash_check)
