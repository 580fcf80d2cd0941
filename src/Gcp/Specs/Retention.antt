-- ===== src/Gcp/Specs/Retention.antt =====
-- The retention durations that `validateGCSCloudSpecific` of internal/cloud/gcp/bucket.go accepts.
use Prim.Native.Nat.{◌/◌}
use vedro.Prelude.{ℕ, ◌≡◌, refl, ◌↔◌, ◌⊎◌, inl, inr, ◌≤◌, ◌*◌, ◌%◌, Option, none, some, ap, arith}
use vedro.Prelude.Int.{ℤ, pos, negsuc}
use vedro.Api.Bucket.{BucketCloudSpecificConfig, SoftDeletePolicy}
use vedro.Gcp.Specs.{
  day, validate_retention, validate_gcs_cloud_specific, soft_delete_of, retention_of,
}

-- No days, or a week to ninety days.
abbrev pub IsRetention : ℤ → Type 0
IsRetention d = (days : ℕ) × (d ≡ pos (days * day)) × ((days ≡ 0) ⊎ ((7 ≤ days) × (days ≤ 90)))

abbrev pub KeepsDeleted : Option SoftDeletePolicy → Type 0
KeepsDeleted none = Unit
KeepsDeleted (some p) = IsRetention p.retention_duration

validate_retention-IsRetention : (d : ℤ) → validate_retention d ≡ none → IsRetention d
unfolding validate_retention
validate_retention-IsRetention (negsuc n) e = cc
validate_retention-IsRetention (pos n) e =
    let whole : n % day ≡ 0 = ground arith in
    let bounds : (n ≡ 0) ⊎ ((7 * day ≤ n) × (n ≤ 90 * day)) = ground arith in
    (n / day, ap pos (omega (arith, whole)), ground (arith, whole, bounds))

IsRetention-accepted :
    (days : ℕ)
    → (days ≡ 0) ⊎ ((7 ≤ days) × (days ≤ 90))
    → validate_retention (pos (days * day)) ≡ none
unfolding validate_retention
IsRetention-accepted days (inl z) = rw z refl
IsRetention-accepted days (inr (l, u)) = ground arith

soft_delete_iff : (p : Option SoftDeletePolicy) → (retention_of p ≡ none) ↔ KeepsDeleted p
soft_delete_iff none = (λ e. tt, λ u. refl)
soft_delete_iff (some p) = (
  validate_retention-IsRetention p.retention_duration,
  λ d. rw d.1 (IsRetention-accepted d.0 d.2),
)

-- The settings for Google Cloud are accepted exactly when no soft delete policy is set or its
-- duration is zero or a whole number of days from 7 to 90.
pub validate_gcs_cloud_specific_iff :
    (cfg : Option BucketCloudSpecificConfig)
    → (validate_gcs_cloud_specific cfg ≡ none) ↔ KeepsDeleted (soft_delete_of cfg)
unfolding validate_gcs_cloud_specific
validate_gcs_cloud_specific_iff cfg = soft_delete_iff (soft_delete_of cfg)
