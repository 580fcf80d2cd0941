-- ===== src/Api/Provider.antt =====
-- api/v1alpha1/providerconfig_types.go
use vedro.Prelude.{ℕ, String, Bool, false, Option, none, List, [], ℕ_discrete, String-discrete}
use vedro.Conditions.{Condition}
use vedro.Api.Meta.{ObjectMeta, zero_meta, NamespacedName, ProviderType, AuthMethod}

pub record AllowedNamespacesSpec : Type 0 where
  pub names : List String
  pub all : Bool

pub record BucketPolicySpec : Type 0 where
  pub allowed_name_patterns : List String

pub record PrincipalPolicySpec : Type 0 where
  pub allowed_name_patterns : List String
  pub allowed_reference_patterns : List String
  pub allow_managed : Bool
  pub allow_references : Bool
  pub allowed_kinds : List String

pub record UsagePolicySpec : Type 0 where
  pub allowed_namespaces : AllowedNamespacesSpec
  pub bucket_policy : BucketPolicySpec
  pub principal_policy : PrincipalPolicySpec

pub record ProviderConfigSpec : Type 0 where
  pub type : ProviderType
  pub project_id : String
  pub region : String
  pub method : AuthMethod
  pub credentials_secret_ref : Option NamespacedName
  pub usage_policy : UsagePolicySpec

pub record ProviderConfigStatus : Type 0 where
  pub conditions : List Condition
  pub observed_generation : ℕ

pub record ProviderConfig : Type 0 where
  pub metadata : ObjectMeta
  pub open metadata use *
  pub spec : ProviderConfigSpec
  pub status : ProviderConfigStatus

abbrev pub zero_usage_policy : UsagePolicySpec
zero_usage_policy = record {
  allowed_namespaces = record { names = []; all = false };
  bucket_policy = record { allowed_name_patterns = [] };
  principal_policy = record {
    allowed_name_patterns = [];
    allowed_reference_patterns = [];
    allow_managed = false;
    allow_references = false;
    allowed_kinds = [];
  };
}

-- The zero value `vedro.ProviderConfig{}`.
abbrev pub zero_provider_config : ProviderConfig
zero_provider_config = record {
  metadata = zero_meta;
  spec = record {
    type = "";
    project_id = "";
    region = "";
    method = "";
    credentials_secret_ref = none;
    usage_policy = zero_usage_policy;
  };
  status = record { conditions = []; observed_generation = 0 };
}

-- `reflect.DeepEqual` at the status.
unfoldable pub ProviderConfigStatus-discrete : Discrete ProviderConfigStatus
ProviderConfigStatus-discrete = hlevel (String-discrete, ℕ_discrete)
