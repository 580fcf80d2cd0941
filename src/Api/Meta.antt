-- ===== src/Api/Meta.antt =====
-- api/v1alpha1/common_types.go, and the object metadata of k8s.io/apimachinery that the program
-- reads. `metadata.deletionTimestamp` is `none` when it is zero.
use vedro.Prelude.{ℕ, String, Option, List}

pub record ObjectMeta : Type 0 where
  pub name : String
  pub namespace : String
  pub generation : ℕ
  pub deletion_timestamp : Option ℕ
  pub finalizers : List String

abbrev pub zero_meta : ObjectMeta
zero_meta = record {
  name = "";
  namespace = "";
  generation = 0;
  deletion_timestamp = Option.none;
  finalizers = List.[];
}

-- `types.NamespacedName`.
pub record NamespacedName : Type 0 where
  pub name : String
  pub namespace : String

abbrev pub ProviderType : Type 0
ProviderType = String

abbrev pub provider_type_gcp : ProviderType
provider_type_gcp = "gcp"

abbrev pub provider_type_yandex_cloud : ProviderType
provider_type_yandex_cloud = "yc"

pub record ProviderConfigReference : Type 0 where
  pub name : String

pub record BucketReference : Type 0 where
  pub name : String
  pub namespace : String

pub record PrincipalReference : Type 0 where
  pub name : String
  pub namespace : String

abbrev pub AuthMethod : Type 0
AuthMethod = String

abbrev pub auth_method_static_credentials : AuthMethod
auth_method_static_credentials = "StaticCredentials"

abbrev pub auth_method_workload_identity : AuthMethod
auth_method_workload_identity = "WorkloadIdentity"

abbrev pub DeletionPolicy : Type 0
DeletionPolicy = String

abbrev pub deletion_policy_delete : DeletionPolicy
deletion_policy_delete = "Delete"

abbrev pub deletion_policy_retain : DeletionPolicy
deletion_policy_retain = "Retain"

pub record UnsupportedFeature : Type 0 where
  pub field : String
  pub message : String
  pub reason : String
