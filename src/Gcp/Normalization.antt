-- ===== src/Gcp/Normalization.antt =====
-- internal/cloud/gcp/normalization.go, and the properties that `EnsureBucket` of
-- internal/cloud/gcp/bucket.go asks for.
use vedro.Prelude.{
  String, Bool, false, not, Option, none, some, List, [], ◌∷◌, if◌then◌else◌, ◌≡◌, refl, ◌*◌, arith,
}
use vedro.Prelude.Int.{pos}
use vedro.Api.Bucket.{
  Bucket, BucketSpec, BucketProperties, BucketVersioning, BucketLifecycle, BucketLifecycleRule,
  BucketCloudSpecificConfig, BucketGcpConfig, SoftDeletePolicy,
}
use vedro.Cloud.{BucketAttrs}
use vedro.Capabilities.{elems}
use vedro.Helpers.{bucket_name_from_cr}

-- `normalizedBucketVersioning`.
abbrev pub normalized_versioning : Option BucketVersioning → Option BucketVersioning
normalized_versioning none = some (record { enabled = false })
normalized_versioning (some v) = some v

-- `normalizedBucketPAP`.
abbrev pub normalized_prevention : Option Bool → Option Bool
normalized_prevention none = some false
normalized_prevention (some b) = some b

-- The loop of `normalizedBucketLifecycle`: rules that are not enabled are left out, names dropped.
unfoldable pub enabled_rules : List BucketLifecycleRule → List BucketLifecycleRule
enabled_rules [] = []
enabled_rules (r ∷ rs) =
    let rest = enabled_rules rs in if not r.enabled then rest else record r { name = none } ∷ rest

-- A slice that was only appended to is nil when nothing was appended.
abbrev pub appended : {A : Type 0} → List A → Option (List A)
appended [] = none
appended (x ∷ xs) = some (x ∷ xs)

-- `normalizedBucketLifecycle`.
unfoldable pub normalized_lifecycle : Option BucketLifecycle → Option BucketLifecycle
unfolding enabled_rules
normalized_lifecycle none = some (record { rules = none })
normalized_lifecycle (some l) = some (record { rules = appended (enabled_rules (elems l.rules)) })

-- 7 * 24 * time.Hour
abbrev pub default_soft_delete : SoftDeletePolicy
default_soft_delete = record { retention_duration = pos (7 * 86400000000000) }

abbrev with_default : BucketCloudSpecificConfig
with_default = record {
  gcp = some (record { soft_delete_policy = some default_soft_delete });
  yc = none;
}

abbrev with_gcp : BucketCloudSpecificConfig → Option BucketGcpConfig → BucketCloudSpecificConfig
with_gcp cfg none = with_default
with_gcp cfg (some g) = elim g.soft_delete_policy [ none ↦ with_default | some p ↦ cfg ]

-- `normalizedCloudSpecific`.
unfoldable pub normalized_cloud_specific :
    Option BucketCloudSpecificConfig → Option BucketCloudSpecificConfig
normalized_cloud_specific none = some with_default
normalized_cloud_specific (some cfg) = some (with_gcp cfg cfg.gcp)

-- `appliedState`; the cloud-specific settings are left out.
unfoldable pub applied_state : String → String → Bucket → BucketAttrs
applied_state id location b = record {
  name = bucket_name_from_cr b;
  location = location;
  id = id;
  properties = some (record {
    public_access_prevention = normalized_prevention b.spec.public_access_prevention;
    versioning = normalized_versioning b.spec.versioning;
    lifecycle = normalized_lifecycle b.spec.lifecycle;
    storage_class = b.spec.storage_class;
    labels = b.spec.labels;
    cloud_specific_config = none;
  });
}

-- The properties in the attributes for `CreateBucket`.
unfoldable pub desired_properties : BucketSpec → BucketProperties
unfolding normalized_lifecycle normalized_cloud_specific
desired_properties spec = record {
  public_access_prevention = normalized_prevention spec.public_access_prevention;
  versioning = normalized_versioning spec.versioning;
  lifecycle = normalized_lifecycle spec.lifecycle;
  storage_class = spec.storage_class;
  labels = spec.labels;
  cloud_specific_config = normalized_cloud_specific spec.cloud_specific_config;
}

pub elems-appended : {A : Type 0} → (xs : List A) → elems (appended xs) ≡ xs
elems-appended [] = refl
elems-appended (x ∷ xs) = refl

enabled_rules-idempotent :
    (rs : List BucketLifecycleRule) → enabled_rules (enabled_rules rs) ≡ enabled_rules rs
unfolding enabled_rules
enabled_rules-idempotent [] = refl
enabled_rules-idempotent (r ∷ rs) = ground (arith, enabled_rules-idempotent rs)

-- Normalizing a lifecycle that was normalized changes nothing: what remains are enabled rules
-- without names.
pub normalized_lifecycle-idempotent :
    (l : Option BucketLifecycle)
    → normalized_lifecycle (normalized_lifecycle l) ≡ normalized_lifecycle l
unfolding normalized_lifecycle
normalized_lifecycle-idempotent none = refl
normalized_lifecycle-idempotent (some l) =
    rw (elems-appended (enabled_rules (elems l.rules)))
      (rw (enabled_rules-idempotent (elems l.rules)) refl)
