-- ===== src/Gcp/Provider.antt =====
-- internal/cloud/gcp/provider.go: what the provider can do, and which ProviderConfigs it accepts.
use vedro.Prelude.{true, false, not, codes, none, [], ◌∷◌, if◌then◌else◌}
use vedro.Api.Principal.{kind_service_account, kind_user, kind_group, kind_all_users}
use vedro.Api.Provider.{ProviderConfig}
use vedro.Cloud.{Capabilities}
use vedro.UsagePolicy.{Regexp}
use vedro.Validation.{ValidationResult, valid, invalid, validate_location, validate_usage_policy}
use vedro.Gcp.Specs.{and_valid}
use vedro.Gcp.Principals.{matches_account}

-- `Provider.Capabilities`.
abbrev pub gcp_capabilities : Capabilities
gcp_capabilities = record {
  bucket = record {
    lifecycle = record { rule_names = false; rule_expiration = true };
    storage_class = record { ice = true; cold = true; warm = true };
    versioning = true;
    public_access_prevention = true;
    labels = true;
  };
  bucket_access = record {
    object_reader = true;
    object_writer = true;
    object_admin = true;
    bucket_admin = true;
  };
  principal = record {
    managed_kinds = (kind_service_account, true) ∷ [];
    referenced_kinds =
        (kind_service_account, true)
        ∷ (kind_group, true)
        ∷ (kind_user, true)
        ∷ (kind_all_users, true)
        ∷ [];
  };
  principal_auth = record {
    static_credentials = true;
    workload_identity = true;
    workload_identity_kinds = (kind_service_account, true) ∷ [];
    static_credentials_kinds = (kind_service_account, true) ∷ [];
  };
}

-- `Provider.ValidateProviderConfigSpec`; `gcpProjectIDPattern` is that of the names of service
-- accounts.
unfoldable pub validate_provider_config_spec : Regexp → ProviderConfig → ValidationResult
unfolding matches_account validate_location validate_usage_policy
validate_provider_config_spec regexp cfg =
    if not (matches_account (codes cfg.spec.project_id))
    then invalid
        "spec.projectId must be 6-30 characters, start with a lowercase letter, contain only lowercase letters, numbers, and dashes, and end with a letter or number"
    else and_valid (validate_location cfg.spec.region none)
        (and_valid (validate_usage_policy regexp cfg.spec.usage_policy) valid)
