-- ===== src/Gcp/Storage.antt =====
-- internal/cloud/gcp/bucket_api.go: the mappings between the attributes of a bucket and those of
-- Cloud Storage. The types of cloud.google.com/go/storage are records of the fields that the code
-- reads and writes; its constant `storage.DeleteAction` is a parameter.
pub mod RoundTrip
pub mod Settled
pub mod Update
pub mod LabelChanges
use vedro.Prelude.{
  ℕ, suc, String, Bool, true, false, not, ◌&&◌, ◌==◌, Option, none, some, List, [], ◌∷◌, ◌++◌, ◌⧺◌,
  decimal, if◌then◌else◌,
}
use vedro.Prelude.Int.{ℤ, pos, ltb_ℤ}
use vedro.Errors.{Error, Result, ok, err, plain}
use vedro.Api.Bucket.{
  BucketProperties, BucketVersioning, BucketLifecycle, BucketLifecycleRule,
  BucketCloudSpecificConfig, SoftDeletePolicy, Labels, Labels-discrete, lifecycle_action_delete,
  storage_class_standard, storage_class_warm, storage_class_cold, storage_class_ice,
}
use vedro.Capabilities.{elems}
use vedro.Cloud.{BucketAttrs, BucketPatch, Change, unset, set}
use vedro.Gcp.Normalization.{appended, default_soft_delete}
use vedro.Gcp.Specs.{soft_delete_of}

-- The values of `storage.PublicAccessPrevention` in the mapping, and any other.
pub data PublicAccessPrevention : Type 0 where
  unknown inherited enforced other_prevention : PublicAccessPrevention

-- `storage.LifecycleRule` with its action's type and its condition's age.
pub record GcsRule : Type 0 where
  pub type : String
  pub age_in_days : ℤ

-- `storage.BucketAttrs`.
pub record GcsAttrs : Type 0 where
  pub name : String
  pub location : String
  pub storage_class : String
  pub labels : Labels
  pub public_access_prevention : PublicAccessPrevention
  pub versioning_enabled : Bool
  pub lifecycle : List GcsRule
  pub soft_delete_policy : Option ℤ

-- A label that `storage.BucketAttrsToUpdate` sets or deletes.
pub data LabelChange : Type 0 where
  set_label : String → String → LabelChange
  delete_label : String → LabelChange

-- `storage.BucketAttrsToUpdate`; what is not in the update stays as it is.
pub record GcsUpdate : Type 0 where
  pub storage_class : Option String
  pub versioning_enabled : Option Bool
  pub public_access_prevention : Option PublicAccessPrevention
  pub lifecycle : Option (List GcsRule)
  pub labels : List LabelChange
  pub soft_delete_policy : Option ℤ

-- `gcsStorageClassMapping`.
unfoldable pub gcs_storage_class : String → Option String
gcs_storage_class s =
    if s == "STANDARD"
    then some storage_class_standard
    else if s == "NEARLINE"
    then some storage_class_warm
    else if s == "COLDLINE"
    then some storage_class_cold
    else if s == "ARCHIVE"
    then some storage_class_ice
    else none

-- `storageClassMapping`.
unfoldable pub storage_class_of : String → Option String
storage_class_of s =
    if s == storage_class_standard
    then some "STANDARD"
    else if s == storage_class_warm
    then some "NEARLINE"
    else if s == storage_class_cold
    then some "COLDLINE"
    else if s == storage_class_ice
    then some "ARCHIVE"
    else none

-- `gcsPublicAccessPreventionMapping`: the value and whether it is in the map.
abbrev pub gcs_prevention : PublicAccessPrevention → Option (Option Bool)
gcs_prevention inherited = some (some false)
gcs_prevention enforced = some (some true)
gcs_prevention unknown = some none
gcs_prevention other_prevention = none

-- `publicAccessPreventionMapping`.
abbrev pub prevention_of : Option Bool → PublicAccessPrevention
prevention_of none = inherited
prevention_of (some true) = enforced
prevention_of (some false) = inherited

-- `versioningMapping`.
abbrev pub versioning_of : Option BucketVersioning → Bool
versioning_of none = false
versioning_of (some v) = v.enabled

-- `toCloudSpecific`.
abbrev pub to_cloud_specific : Option ℤ → Option BucketCloudSpecificConfig
to_cloud_specific none =
    some
      (record { gcp = some (record { soft_delete_policy = some default_soft_delete }); yc = none })
to_cloud_specific (some d) = some (record {
  gcp = some (record { soft_delete_policy = some (record { retention_duration = d }) });
  yc = none;
})

abbrev duration_or_default : Option SoftDeletePolicy → ℤ
duration_or_default none = default_soft_delete.retention_duration
duration_or_default (some p) = p.retention_duration

-- `fromCloudSpecific`; its result is never nil.
abbrev pub from_cloud_specific : Option BucketCloudSpecificConfig → ℤ
from_cloud_specific cfg = duration_or_default (soft_delete_of cfg)

-- The condition of a rule, if its age is set and positive.
abbrev pub condition_of : Option ℤ → Option ℤ
condition_of none = none
condition_of (some d) = if ltb_ℤ (pos 0) d then some d else none

abbrev pub with_rule : String → Option ℤ → Result (List GcsRule) → Result (List GcsRule)
with_rule type age (err e) = err e
with_rule type none (ok rs) = ok rs
with_rule type (some d) (ok rs) = ok (record { type = type; age_in_days = d } ∷ rs)

abbrev pub unmapped_action : ℕ → String → Error
unmapped_action index action = plain (
    "lifecycle.rules["
    ⧺ decimal index
    ⧺ "].action "
    ⧺ action
    ⧺ " doesn't map to any GCS lifecycle action")

abbrev unmapped_prevention : String → Error
unmapped_prevention p =
    plain ("gcs PublicAccessPrevention " ⧺ p ⧺ " doesnt map to any bucket StorageClass")

abbrev pub unmapped_class : String → Error
unmapped_class c = plain ("gcs StorageClass " ⧺ c ⧺ " doesnt map to any bucket StorageClass")

module _ (delete_action : String) where
  -- The loop of `toGCSLifeCycle`, at the rule of this index.
  unfoldable pub to_gcs_rules : ℕ → List BucketLifecycleRule → Result (List GcsRule)
  to_gcs_rules index [] = ok []
  to_gcs_rules index (r ∷ rs) =
      let rest = to_gcs_rules (suc index) rs in
      if not r.enabled
      then rest
      else if not (r.action == lifecycle_action_delete)
      then err (unmapped_action index r.action)
      else with_rule delete_action (condition_of r.age_days) rest

  -- `toGCSLifeCycle`.
  unfoldable pub to_gcs_lifecycle : Option BucketLifecycle → Result (List GcsRule)
  unfolding to_gcs_rules
  to_gcs_lifecycle none = ok []
  to_gcs_lifecycle (some l) = to_gcs_rules 0 (elems l.rules)

  -- The loop of `fromGCSLifeCycle`.
  unfoldable pub from_gcs_rules : List GcsRule → List BucketLifecycleRule
  from_gcs_rules [] = []
  from_gcs_rules (r ∷ rs) =
      let rest = from_gcs_rules rs in
      if ltb_ℤ (pos 0) r.age_in_days && r.type == delete_action
      then record {
        name = none;
        enabled = true;
        age_days = some r.age_in_days;
        action = lifecycle_action_delete;
      }
        ∷ rest
      else rest

  -- `fromGCSLifeCycle`.
  unfoldable pub from_gcs_lifecycle : List GcsRule → BucketLifecycle
  unfolding from_gcs_rules
  from_gcs_lifecycle rs = record { rules = appended (from_gcs_rules rs) }

module _ (delete_action : String) (print_prevention : PublicAccessPrevention → String) where
  abbrev pub from_mapped : GcsAttrs → Option (Option Bool) → Option String → Result BucketAttrs
  from_mapped a none class = err (unmapped_prevention (print_prevention a.public_access_prevention))
  from_mapped a (some prevention) none = err (unmapped_class a.storage_class)
  from_mapped a (some prevention) (some class) = ok (record {
    name = a.name;
    location = a.location;
    id = a.name;
    properties = some (record {
      public_access_prevention = prevention;
      versioning = some (record { enabled = a.versioning_enabled });
      lifecycle = some (from_gcs_lifecycle delete_action a.lifecycle);
      storage_class = class;
      labels = a.labels;
      cloud_specific_config = to_cloud_specific a.soft_delete_policy;
    });
  })

  -- `fromGCSBucketAttrs`; the SDK prints the value in the first error.
  unfoldable pub from_gcs_attrs : GcsAttrs → Result BucketAttrs
  unfolding from_gcs_lifecycle gcs_storage_class
  from_gcs_attrs a =
      from_mapped a (gcs_prevention a.public_access_prevention) (gcs_storage_class a.storage_class)

module _ (delete_action : String) where
  abbrev pub to_mapped :
      BucketAttrs → BucketProperties → Option String → Result (List GcsRule) → Result GcsAttrs
  to_mapped a p none rules = err (unmapped_class p.storage_class)
  to_mapped a p (some class) (err e) = err e
  to_mapped a p (some class) (ok rules) = ok (record {
    name = a.name;
    location = a.location;
    storage_class = class;
    labels = p.labels;
    public_access_prevention = prevention_of p.public_access_prevention;
    versioning_enabled = versioning_of p.versioning;
    lifecycle = rules;
    soft_delete_policy = some (from_cloud_specific p.cloud_specific_config);
  })

  -- The attributes of Cloud Storage but for the name and the location; without properties they have
  -- their zero values.
  abbrev pub to_gcs_properties : BucketAttrs → Option BucketProperties → Result GcsAttrs
  to_gcs_properties a none = ok (record {
    name = a.name;
    location = a.location;
    storage_class = "";
    labels = none;
    public_access_prevention = unknown;
    versioning_enabled = false;
    lifecycle = [];
    soft_delete_policy = none;
  })
  to_gcs_properties a (some p) =
      to_mapped a p (storage_class_of p.storage_class) (to_gcs_lifecycle delete_action p.lifecycle)

  -- `toGCSBucketAttrs`.
  unfoldable pub to_gcs_attrs : BucketAttrs → Result GcsAttrs
  unfolding to_gcs_lifecycle storage_class_of
  to_gcs_attrs a = to_gcs_properties a a.properties
