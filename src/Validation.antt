-- ===== src/Validation.antt =====
-- internal/validation: what makes the spec of a resource valid, for every provider.
-- The two patterns of bucket.go are translated into the functions of `Patterns`.
pub mod Patterns
pub mod Immutability
pub mod Policy
use vedro.Prelude.{
  String, ◌⧺◌, codes, has_part, Bool, true, false, not, ◌==◌, ◌&&◌, ◌||◌, Option, none, some,
  is_some, List, [], ◌∷◌, ◌++◌, is_empty, if◌then◌else◌,
}
use vedro.Api.Meta.{ProviderType, provider_type_gcp, provider_type_yandex_cloud}
use vedro.Api.Provider.{UsagePolicySpec}
use vedro.Api.Bucket.{BucketCloudSpecificConfig}
use vedro.Api.Principal.{CloudPrincipal, PrincipalKind, valid_kind, kind_all_users, policy_managed}
use vedro.UsagePolicy.{Regexp}
use vedro.Validation.Patterns.{matches_regional, matches_bucket_name}

pub record ValidationResult : Type 0 where
  pub valid : Bool
  pub message : String

-- `Valid()`.
abbrev pub valid : ValidationResult
valid = record { valid = true; message = "" }

-- `Invalid(message)`.
abbrev pub invalid : String → ValidationResult
invalid m = record { valid = false; message = m }

-- A provider's own validation: nil for none, and a nil result to go on with the common one.
abbrev pub ProviderValidation : Type 0 → Type 0
ProviderValidation A = Option (A → Option ValidationResult)

-- `if fn != nil { v := fn(a); if v != nil { return *v } }` and the rest.
abbrev pub by_provider :
    {A : Type 0} → ProviderValidation A → A → ValidationResult → ValidationResult
by_provider none a rest = rest
by_provider (some fn) a rest = elim (fn a) [ none ↦ rest | some v ↦ v ]

-- `ValidateLocation`.
unfoldable pub validate_location : String → ProviderValidation String → ValidationResult
validate_location location fn =
    if location == ""
    then invalid "location is an empty string"
    else by_provider fn location (
        if not (matches_regional (codes location))
        then invalid "unsupported bucket location"
        else valid)

-- `ValidateNameImmutability`.
unfoldable pub validate_name_immutability : String → String → String → ValidationResult
validate_name_immutability spec_name external_name object_name =
    if not (spec_name == "") && not (external_name == "") && not (external_name == spec_name)
    then invalid "name cannot be changed after creation"
    else if spec_name == "" && not (external_name == "") && not (external_name == object_name)
    then invalid
        "metadata.name cannot be used as the name source if spec.name was used and CR is created"
    else valid

-- The `switch` of `ValidateCloudSpecificConfig`.
unfoldable pub validate_config_of_type : BucketCloudSpecificConfig → ProviderType → ValidationResult
validate_config_of_type cfg type =
    if type == provider_type_gcp
    then (if is_some cfg.yc
        then invalid "spec.cloudSpecificConfig.yc can only be used with provider type yc"
        else valid)
    else if type == provider_type_yandex_cloud
    then (if is_some cfg.gcp
        then invalid "spec.cloudSpecificConfig.gcp can only be used with provider type gcp"
        else valid)
    else invalid
        "spec.cloudSpecificConfig contains provider-specific settings unsupported by provider type"

-- `ValidateCloudSpecificConfig`; the provider's validation takes the pointer, which is not nil.
unfoldable pub validate_cloud_specific_config :
    Option BucketCloudSpecificConfig
    → ProviderType
    → ProviderValidation (Option BucketCloudSpecificConfig)
    → ValidationResult
unfolding validate_config_of_type
validate_cloud_specific_config none type fn = valid
validate_cloud_specific_config (some cfg) type fn =
    by_provider fn (some cfg) (validate_config_of_type cfg type)

-- `ValidateBucketName`.
unfoldable pub validate_bucket_name : String → ProviderValidation String → ValidationResult
validate_bucket_name name fn =
    if name == ""
    then invalid "name is an empty string"
    else by_provider fn name (
        if not (matches_bucket_name (codes name))
        then invalid
            "bucket name must be 3-63 characters, contain only lowercase letters, numbers, dots, and dashes, and start/end with a letter or number"
        else if has_part (codes name) (codes "..")
        then invalid "bucket name must not contain consecutive dots"
        else if has_part (codes name) (codes ".-") || has_part (codes name) (codes "-.")
        then invalid "bucket name must not contain dots next to dashes"
        else valid)

-- `ValidatePrincipalAllUsers`.
unfoldable pub validate_principal_all_users : CloudPrincipal → ValidationResult
validate_principal_all_users p =
    if not (p.spec.kind == kind_all_users)
    then valid
    else if p.spec.management_policy == policy_managed
    then invalid "managementPolicy can not be Managed when Kind is AllUsers"
    else if is_some p.spec.reference
    then invalid "Reference can not be set when Kind is AllUsers"
    else if is_some p.spec.managed
    then invalid "Managed can not be set when Kind is AllUsers"
    else valid

-- The loop over `AllowedKinds` in `ValidateUsagePolicy`, and what follows it.
unfoldable pub validate_kinds : List PrincipalKind → ValidationResult → ValidationResult
validate_kinds [] rest = rest
validate_kinds (k ∷ ks) rest =
    if not (valid_kind k)
    then invalid ("Kind " ⧺ k ⧺ " is not a valid PrincipalKind")
    else validate_kinds ks rest

module _ (re : Regexp) where
  -- The loop over the patterns in `ValidateUsagePolicy`.
  unfoldable pub validate_patterns : List String → ValidationResult
  validate_patterns [] = valid
  validate_patterns (p ∷ ps) =
      if not (re.compiles p)
      then invalid ("String " ⧺ p ⧺ " does not compile to regex")
      else validate_patterns ps

  -- `ValidateUsagePolicy`.
  unfoldable pub validate_usage_policy : UsagePolicySpec → ValidationResult
  validate_usage_policy policy =
      if policy.allowed_namespaces.all && not (is_empty policy.allowed_namespaces.names)
      then invalid "AllowedNamespaces.All cant be used together with AllowedNamespaces.Names"
      else validate_kinds policy.principal_policy.allowed_kinds (
          validate_patterns (
            (policy.bucket_policy.allowed_name_patterns
              ++ policy.principal_policy.allowed_name_patterns)
            ++ policy.principal_policy.allowed_reference_patterns))
