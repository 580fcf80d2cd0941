-- ===== src/Api/Bucket.antt =====
-- api/v1alpha1/bucket_types.go. A label map and a list of lifecycle rules are `none` when they are
-- nil, which `reflect.DeepEqual` tells from empty ones. A duration is its number of nanoseconds.
use vedro.Prelude.{ℕ, String, Bool, Option, none, List, [], ℕ_discrete, String-discrete}
use vedro.Prelude.Int.{ℤ, ℤ-discrete}
use vedro.Conditions.{Condition}
use vedro.Api.Meta.{
  ObjectMeta, zero_meta, ProviderConfigReference, DeletionPolicy, UnsupportedFeature,
}

abbrev pub storage_class_standard : String
storage_class_standard = "Standard"

abbrev pub storage_class_warm : String
storage_class_warm = "Warm"

abbrev pub storage_class_cold : String
storage_class_cold = "Cold"

abbrev pub storage_class_ice : String
storage_class_ice = "Ice"

pub record SoftDeletePolicy : Type 0 where
  pub retention_duration : ℤ

pub record BucketGcpConfig : Type 0 where
  pub soft_delete_policy : Option SoftDeletePolicy

pub record BucketYcConfig : Type 0 where

pub record BucketCloudSpecificConfig : Type 0 where
  pub gcp : Option BucketGcpConfig
  pub yc : Option BucketYcConfig

pub record BucketVersioning : Type 0 where
  pub enabled : Bool

pub record BucketLifecycleRule : Type 0 where
  pub name : Option String
  pub enabled : Bool
  pub age_days : Option ℤ
  pub action : String

pub record BucketLifecycle : Type 0 where
  pub rules : Option (List BucketLifecycleRule)

abbrev pub Labels : Type 0
Labels = Option (List (String × String))

pub record BucketProperties : Type 0 where
  pub public_access_prevention : Option Bool
  pub versioning : Option BucketVersioning
  pub lifecycle : Option BucketLifecycle
  pub storage_class : String
  pub labels : Labels
  pub cloud_specific_config : Option BucketCloudSpecificConfig

pub record BucketSpec : Type 0 where
  pub provider_ref : ProviderConfigReference
  pub name : String
  pub location : String
  pub storage_class : String
  pub deletion_policy : DeletionPolicy
  pub public_access_prevention : Option Bool
  pub versioning : Option BucketVersioning
  pub lifecycle : Option BucketLifecycle
  pub labels : Labels
  pub cloud_specific_config : Option BucketCloudSpecificConfig

pub record BucketStatus : Type 0 where
  pub external_name : String
  pub external_id : String
  pub location : String
  pub observed_provider : String
  pub observed_generation : ℕ
  pub applied : Option BucketProperties
  pub unsupported_features : List UnsupportedFeature
  pub conditions : List Condition

pub record Bucket : Type 0 where
  pub metadata : ObjectMeta
  pub spec : BucketSpec
  pub status : BucketStatus

-- The zero value `vedro.Bucket{}`.
abbrev pub zero_bucket : Bucket
zero_bucket = record {
  metadata = zero_meta;
  spec = record {
    provider_ref = record { name = "" };
    name = "";
    location = "";
    storage_class = "";
    deletion_policy = "";
    public_access_prevention = none;
    versioning = none;
    lifecycle = none;
    labels = none;
    cloud_specific_config = none;
  };
  status = record {
    external_name = "";
    external_id = "";
    location = "";
    observed_provider = "";
    observed_generation = 0;
    applied = none;
    unsupported_features = [];
    conditions = [];
  };
}

-- `reflect.DeepEqual` is a decision at the types at which the program calls it.
unfoldable pub PublicAccessPrevention-discrete : Discrete (Option Bool)
PublicAccessPrevention-discrete = hlevel

unfoldable pub BucketVersioning-discrete : Discrete (Option BucketVersioning)
BucketVersioning-discrete = hlevel

unfoldable pub BucketLifecycle-discrete : Discrete (Option BucketLifecycle)
BucketLifecycle-discrete = hlevel (String-discrete, ℤ-discrete)

unfoldable pub BucketCloudSpecificConfig-discrete : Discrete (Option BucketCloudSpecificConfig)
BucketCloudSpecificConfig-discrete = hlevel ℤ-discrete

unfoldable pub Labels-discrete : Discrete (List (String × String))
Labels-discrete = hlevel String-discrete

unfoldable pub BucketStatus-discrete : Discrete BucketStatus
BucketStatus-discrete = hlevel (String-discrete, ℤ-discrete, ℕ_discrete)

abbrev pub lifecycle_action_delete : String
lifecycle_action_delete = "Delete"
