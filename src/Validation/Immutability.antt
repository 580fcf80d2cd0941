-- ===== src/Validation/Immutability.antt =====
-- `ValidateNameImmutability` at the names of a bucket.
use vedro.Prelude.{◌≡◌, ◌↔◌, ◌⊎◌, true, arith, eq_iff}
use vedro.Api.Bucket.{Bucket}
use vedro.Helpers.{bucket_name_from_cr}
use vedro.Validation.{validate_name_immutability}

-- The names are valid exactly when no external name is recorded yet, or the recorded one is the
-- name that `BucketNameFromCR` derives from the resource.
pub validate_name_immutability_iff :
    (b : Bucket)
    → ((validate_name_immutability b.spec.name b.status.external_name b.metadata.name).valid ≡ true)
      ↔ ((b.status.external_name ≡ "") ⊎ (b.status.external_name ≡ bucket_name_from_cr b))
unfolding validate_name_immutability bucket_name_from_cr
validate_name_immutability_iff b = ground (
  arith,
  eq_iff b.spec.name "",
  eq_iff b.status.external_name "",
  eq_iff b.status.external_name b.spec.name,
  eq_iff b.status.external_name b.metadata.name,
)
