-- ===== src/Gcp/Specs.antt =====
-- The validation of a bucket's spec in internal/cloud/gcp/bucket.go. `strings.ToUpper` is a
-- parameter, since its tables of Unicode are not in the repository.
pub mod Retention
use vedro.Prelude.{
  ℕ, String, Bool, true, false, not, ◌&&◌, ◌||◌, ◌==◌, ◌≡◌, ◌⊎◌, ◌≤◌, ◌*◌, ◌%◌, ltb, eqb, codes,
  has_prefix, has_part, Option, none, some, if◌then◌else◌, arith,
}
use vedro.Prelude.Int.{ℤ, pos, negsuc}
use vedro.Api.Meta.{ProviderType}
use vedro.Api.Bucket.{Bucket, BucketCloudSpecificConfig, BucketGcpConfig, SoftDeletePolicy}
use vedro.Validation.{
  ValidationResult, valid, invalid, validate_cloud_specific_config, validate_name_immutability,
  validate_location, validate_bucket_name,
}
use vedro.Validation.Patterns.{matches_gcs_name, matches_dual_region}
use vedro.Helpers.{bucket_name_from_cr}

-- `validateGCSName`; its result is never nil.
unfoldable pub validate_gcs_name : String → Option ValidationResult
validate_gcs_name name =
    if has_prefix (codes name) (codes "goog") || has_part (codes name) (codes "google")
    then some (invalid "bucket name must not use reserved Google-related names")
    else if not (matches_gcs_name (codes name))
    then some (
        invalid
          "bucket name must be 3-63 characters, contain only lowercase letters, numbers, dots, underscores, and dashes,and start/end with a letter or number")
    else if has_part (codes name) (codes "..")
    then some (invalid "bucket name must not contain consecutive dots")
    else if has_part (codes name) (codes ".-") || has_part (codes name) (codes "-.")
    then some (invalid "bucket name must not contain dots next to dashes")
    else some valid

-- 24 * time.Hour in nanoseconds.
abbrev pub day : ℕ
day = 86400000000000

-- The three tests on the retention duration.
unfoldable pub validate_retention : ℤ → Option ValidationResult
validate_retention (negsuc n) =
    some
      (invalid "spec.cloudSpecificConfig.gcp.softDeletePolicy.retentionDuration cannot be negative")
validate_retention (pos n) =
    if not (eqb n 0) && not (eqb (n % day) 0)
    then some (
        invalid
          "spec.cloudSpecificConfig.gcp.softDeletePolicy.retentionDuration must be a whole number of days")
    else if not (eqb n 0) && (ltb n (7 * day) || ltb (90 * day) n)
    then some (
        invalid
          "spec.cloudSpecificConfig.gcp.softDeletePolicy.retentionDuration must be 0 or between 7 and 90 days")
    else none

-- The soft delete policy, if none of the pointers to it is nil.
abbrev pub soft_delete_of : Option BucketCloudSpecificConfig → Option SoftDeletePolicy
soft_delete_of none = none
soft_delete_of (some cfg) = elim cfg.gcp [ none ↦ none | some g ↦ g.soft_delete_policy ]

abbrev pub retention_of : Option SoftDeletePolicy → Option ValidationResult
retention_of none = none
retention_of (some p) = validate_retention p.retention_duration

-- `validateGCSCloudSpecific`.
unfoldable pub validate_gcs_cloud_specific :
    Option BucketCloudSpecificConfig → Option ValidationResult
unfolding validate_retention
validate_gcs_cloud_specific cfg = retention_of (soft_delete_of cfg)

-- `if !v.Valid { return v }` and the rest.
abbrev pub and_valid : ValidationResult → ValidationResult → ValidationResult
and_valid v rest = if not v.valid then v else rest

module _ (to_upper : String → String) where
  -- `validateGCSLocation`.
  unfoldable pub validate_gcs_location : String → Option ValidationResult
  validate_gcs_location location =
      let normalized = to_upper location in
      if normalized == "US" || normalized == "EU" || normalized == "ASIA"
      then some valid
      else if matches_dual_region (codes normalized)
      then some valid
      else none

  -- `Bucket.ValidateBucketSpec`.
  unfoldable pub validate_bucket_spec : Bucket → ProviderType → ValidationResult
  unfolding validate_gcs_location validate_gcs_name validate_gcs_cloud_specific
  validate_bucket_spec b type =
      and_valid
        (validate_cloud_specific_config b.spec.cloud_specific_config type
          (some validate_gcs_cloud_specific))
        (and_valid (validate_name_immutability b.spec.name b.status.external_name b.metadata.name) (
          and_valid (validate_location b.spec.location (some validate_gcs_location)) (
            and_valid (validate_bucket_name (bucket_name_from_cr b) (some validate_gcs_name))
              valid)))
