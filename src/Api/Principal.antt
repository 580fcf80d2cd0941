-- ===== src/Api/Principal.antt =====
-- api/v1alpha1/cloudprincipal_types.go and the spec of cloudprincipal_auth_types.go
use vedro.Prelude.{ℕ, String, Bool, ◌||◌, ◌==◌, Option, none, List, [], ℕ_discrete, String-discrete}
use vedro.Conditions.{Condition}
use vedro.Api.Meta.{
  ObjectMeta, zero_meta, ProviderConfigReference, PrincipalReference, DeletionPolicy,
  UnsupportedFeature, AuthMethod, NamespacedName,
}

abbrev pub PrincipalKind : Type 0
PrincipalKind = String

abbrev pub kind_service_account : PrincipalKind
kind_service_account = "ServiceAccount"

abbrev pub kind_role : PrincipalKind
kind_role = "Role"

abbrev pub kind_user : PrincipalKind
kind_user = "User"

abbrev pub kind_group : PrincipalKind
kind_group = "Group"

abbrev pub kind_all_users : PrincipalKind
kind_all_users = "AllUsers"

-- `PrincipalKind.Valid`.
unfoldable pub valid_kind : PrincipalKind → Bool
valid_kind k =
    k == kind_service_account
    || k == kind_role
    || k == kind_user
    || k == kind_group
    || k == kind_all_users

abbrev pub policy_managed : String
policy_managed = "Managed"

abbrev pub policy_reference : String
policy_reference = "Reference"

pub record ManagedPrincipalSpec : Type 0 where
  pub name : String
  pub deletion_policy : DeletionPolicy

pub record ReferencedPrincipalSpec : Type 0 where
  pub name : String

pub record CloudPrincipalSpec : Type 0 where
  pub provider_ref : ProviderConfigReference
  pub kind : PrincipalKind
  pub management_policy : String
  pub managed : Option ManagedPrincipalSpec
  pub reference : Option ReferencedPrincipalSpec

pub record CloudPrincipalStatus : Type 0 where
  pub external_name : String
  pub observed_provider : String
  pub observed_generation : ℕ
  pub unsupported_features : List UnsupportedFeature
  pub external_id : String
  pub conditions : List Condition
  pub kind : PrincipalKind
  pub management_policy : String

pub record CloudPrincipal : Type 0 where
  pub metadata : ObjectMeta
  pub spec : CloudPrincipalSpec
  pub status : CloudPrincipalStatus

-- The zero value `vedro.CloudPrincipal{}`.
abbrev pub zero_cloud_principal : CloudPrincipal
zero_cloud_principal = record {
  metadata = zero_meta;
  spec = record {
    provider_ref = record { name = "" };
    kind = "";
    management_policy = "";
    managed = none;
    reference = none;
  };
  status = record {
    external_name = "";
    observed_provider = "";
    observed_generation = 0;
    unsupported_features = [];
    external_id = "";
    conditions = [];
    kind = "";
    management_policy = "";
  };
}

-- `reflect.DeepEqual` at the status.
unfoldable pub CloudPrincipalStatus-discrete : Discrete CloudPrincipalStatus
CloudPrincipalStatus-discrete = hlevel (String-discrete, ℕ_discrete)

pub record AuthObjectReference : Type 0 where
  pub name : String

pub record StaticCredentialsSpec : Type 0 where
  pub secret_ref : AuthObjectReference
  pub deletion_policy : DeletionPolicy

pub record WorkloadIdentitySpec : Type 0 where
  pub service_account_ref : AuthObjectReference
  pub deletion_policy : DeletionPolicy

pub record CloudPrincipalAuthSpec : Type 0 where
  pub principal_ref : PrincipalReference
  pub method : AuthMethod
  pub static_credentials : Option StaticCredentialsSpec
  pub workload_identity : Option WorkloadIdentitySpec

pub record CloudPrincipalAuthProperties : Type 0 where
  pub method : AuthMethod
  pub credentials_id : String
  pub principal_id : String
  pub service_account_ref : Option NamespacedName
  pub secret_ref : Option NamespacedName
  pub created_at : ℕ

pub record CloudPrincipalAuthStatus : Type 0 where
  pub applied : Option CloudPrincipalAuthProperties
  pub conditions : List Condition
  pub observed_generation : ℕ
  pub observed_provider : String
  pub unsupported_features : List UnsupportedFeature

pub record CloudPrincipalAuth : Type 0 where
  pub metadata : ObjectMeta
  pub spec : CloudPrincipalAuthSpec
  pub status : CloudPrincipalAuthStatus
