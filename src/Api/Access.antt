-- ===== src/Api/Access.antt =====
-- api/v1alpha1/bucketaccess_types.go
use vedro.Prelude.{ℕ, String, Option, none, List, [], ℕ_discrete, String-discrete}
use vedro.Conditions.{Condition}
use vedro.Api.Meta.{
  ObjectMeta, zero_meta, BucketReference, PrincipalReference, DeletionPolicy, UnsupportedFeature,
}

abbrev pub object_reader : String
object_reader = "ObjectReader"

abbrev pub object_writer : String
object_writer = "ObjectWriter"

abbrev pub object_admin : String
object_admin = "ObjectAdmin"

abbrev pub bucket_admin : String
bucket_admin = "BucketAdmin"

pub record Access : Type 0 where
  pub level : String

pub record BucketAccessProperties : Type 0 where
  pub bucket_name : String
  pub bucket_id : String
  pub principal_id : String
  pub granted_access : String

pub record BucketAccessSpec : Type 0 where
  pub bucket_ref : BucketReference
  pub principal_ref : PrincipalReference
  pub deletion_policy : DeletionPolicy
  pub access : Access

pub record BucketAccessStatus : Type 0 where
  pub applied : Option BucketAccessProperties
  pub observed_generation : ℕ
  pub unsupported_features : List UnsupportedFeature
  pub observed_provider : String
  pub conditions : List Condition

pub record BucketAccess : Type 0 where
  pub metadata : ObjectMeta
  pub spec : BucketAccessSpec
  pub status : BucketAccessStatus

-- The zero value `vedro.BucketAccess{}`.
abbrev pub zero_bucket_access : BucketAccess
zero_bucket_access = record {
  metadata = zero_meta;
  spec = record {
    bucket_ref = record { name = ""; namespace = "" };
    principal_ref = record { name = ""; namespace = "" };
    deletion_policy = "";
    access = record { level = "" };
  };
  status = record {
    applied = none;
    observed_generation = 0;
    unsupported_features = [];
    observed_provider = "";
    conditions = [];
  };
}

-- The comparison `!=` of two `BucketAccessProperties`, and `reflect.DeepEqual` at the status.
unfoldable pub BucketAccessProperties-discrete : Discrete BucketAccessProperties
BucketAccessProperties-discrete = hlevel String-discrete

unfoldable pub BucketAccessStatus-discrete : Discrete BucketAccessStatus
BucketAccessStatus-discrete = hlevel (String-discrete, ℕ_discrete)
