-- ===== src/Cloud.antt =====
-- internal/cloud/provider.go: what a provider can do, and the values that it takes and returns.
use vedro.Prelude.{String, Bool, ◌||◌, Option, List}
use vedro.Api.Bucket.{
  BucketProperties, BucketVersioning, BucketLifecycle, BucketCloudSpecificConfig, Labels,
}
use vedro.Api.Meta.{AuthMethod, NamespacedName}
use vedro.Api.Access.{BucketAccessProperties}
use vedro.Api.Principal.{PrincipalKind}

-- `map[vedro.PrincipalKind]bool`
abbrev pub KindMap : Type 0
KindMap = List (PrincipalKind × Bool)

pub record PrincipalAuthCapabilities : Type 0 where
  pub static_credentials : Bool
  pub workload_identity : Bool
  pub workload_identity_kinds : KindMap
  pub static_credentials_kinds : KindMap

pub record PrincipalCapabilities : Type 0 where
  pub managed_kinds : KindMap
  pub referenced_kinds : KindMap

pub record LifecycleCapabilities : Type 0 where
  pub rule_names : Bool
  pub rule_expiration : Bool

pub record StorageClassCapabilities : Type 0 where
  pub ice : Bool
  pub cold : Bool
  pub warm : Bool

pub record BucketCapabilities : Type 0 where
  pub lifecycle : LifecycleCapabilities
  pub storage_class : StorageClassCapabilities
  pub versioning : Bool
  pub public_access_prevention : Bool
  pub labels : Bool

-- `LifecycleSupported`
abbrev pub lifecycle_supported : BucketCapabilities → Bool
lifecycle_supported c = c.lifecycle.rule_expiration

pub record BucketAccessCapabilities : Type 0 where
  pub object_reader : Bool
  pub object_writer : Bool
  pub object_admin : Bool
  pub bucket_admin : Bool

pub record Capabilities : Type 0 where
  pub bucket : BucketCapabilities
  pub bucket_access : BucketAccessCapabilities
  pub principal : PrincipalCapabilities
  pub principal_auth : PrincipalAuthCapabilities

-- `BucketAttrs`; the properties are a pointer.
pub record BucketAttrs : Type 0 where
  pub name : String
  pub location : String
  pub id : String
  pub properties : Option BucketProperties

-- `BucketAccessAttrs` is a copy of the type `BucketAccessProperties`.
abbrev pub BucketAccessAttrs : Type 0
BucketAccessAttrs = BucketAccessProperties

pub record PrincipalAttrs : Type 0 where
  pub name : String
  pub kind : PrincipalKind
  pub policy : String
  pub id : String

pub record PrincipalSetup : Type 0 where
  pub kind : PrincipalKind
  pub name : String
  pub policy : String

pub record PrincipalAuthSetup : Type 0 where
  pub method : AuthMethod
  pub service_account_id : String
  pub credentials_id : String
  pub k8s_service_account : Option NamespacedName

-- What the code sets of a `corev1.ServiceAccount`.
pub record ServiceAccountPatch : Type 0 where
  pub api_version : String
  pub kind : String
  pub name : String
  pub namespace : String
  pub annotations : List (String × String)

-- The secret data has its bytes as a string.
pub record PrincipalAuthResult : Type 0 where
  pub credentials_id : String
  pub service_account_patch : Option ServiceAccountPatch
  pub secret_data : Option (List (String × String))
  pub method : AuthMethod

-- `Change[T]`: set to a value, or not set.
pub data Change (A : Type 0) : Type 0 where
  unset : Change A
  set : A → Change A

abbrev pub is_set : {A : Type 0} → Change A → Bool
is_set unset = Bool.false
is_set (set a) = Bool.true

pub record ObjectVersion : Type 0 where
  pub name : String
  pub version : Option String

pub record BucketPatch : Type 0 where
  pub storage_class : Change String
  pub labels : Change Labels
  pub versioning : Change (Option BucketVersioning)
  pub public_access_prevention : Change (Option Bool)
  pub lifecycle : Change (Option BucketLifecycle)
  pub cloud_specific_config : Change (Option BucketCloudSpecificConfig)

-- `HasChanges`
unfoldable pub has_changes : BucketPatch → Bool
has_changes p =
    is_set p.storage_class
    || is_set p.labels
    || is_set p.versioning
    || is_set p.public_access_prevention
    || is_set p.cloud_specific_config
    || is_set p.lifecycle
