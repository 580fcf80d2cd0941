-- ===== src/Conditions.antt =====
-- internal/conditions/conditions.go: condition types and reasons, those that the modelled
-- controllers write; and the condition record of k8s.io/apimachinery with the fields that are read
-- or written here.
use vedro.Prelude.{ℕ, String}

-- The type of a status condition, k8s.io/apimachinery's `metav1.Condition`.
pub record Condition : Type 0 where
  pub type : String
  pub status : String
  pub observed_generation : ℕ
  pub last_transition_time : ℕ
  pub reason : String
  pub message : String

-- Condition statuses.
abbrev pub condition_true : String
condition_true = "True"

abbrev pub condition_false : String
condition_false = "False"

-- Condition types.
abbrev pub type_ready : String
type_ready = "Ready"

abbrev pub type_provider_config_ready : String
type_provider_config_ready = "ProviderConfigReady"

abbrev pub type_bucket_ready : String
type_bucket_ready = "BucketReady"

abbrev pub type_cloud_principal_ready : String
type_cloud_principal_ready = "CloudPrincipalReady"

-- Generic reasons.
abbrev pub reason_no_conditions : String
reason_no_conditions = "NoConditions"

abbrev pub reason_generation_missmatch : String
reason_generation_missmatch = "GenerationMissmatch"

-- Reasons of Bucket resources.
abbrev pub reason_bucket_not_found : String
reason_bucket_not_found = "BucketNotFound"

abbrev pub reason_bucket_get_failed : String
reason_bucket_get_failed = "BucketGetFailed"

abbrev pub reason_bucket_unsupported_features : String
reason_bucket_unsupported_features = "BucketUnsupportedFeatures"

abbrev pub reason_bucket_invalid_spec : String
reason_bucket_invalid_spec = "BucketInvalidSpec"

abbrev pub reason_bucket_spec_restricted : String
reason_bucket_spec_restricted = "BucketSpecRestricted"

abbrev pub reason_bucket_ensure_error : String
reason_bucket_ensure_error = "BucketEnsureError"

abbrev pub reason_bucket_reconciled : String
reason_bucket_reconciled = "Reconciled"

abbrev pub reason_bucket_delete_error : String
reason_bucket_delete_error = "BucketDeleteError"

abbrev pub reason_bucket_remove_finalizer_error : String
reason_bucket_remove_finalizer_error = "BucketRemoveFinalizerError"

abbrev pub reason_bucket_ready : String
reason_bucket_ready = "BucketReady"

-- Reasons of CloudPrincipal resources.
abbrev pub reason_cloud_principal_not_found : String
reason_cloud_principal_not_found = "CloudPrincipalNotFound"

abbrev pub reason_cloud_principal_get_failed : String
reason_cloud_principal_get_failed = "CloudPrincipalGetFailed"

abbrev pub reason_cloud_principal_invalid_spec : String
reason_cloud_principal_invalid_spec = "CloudPrincipalInvalidSpec"

abbrev pub reason_cloud_principal_delete_error : String
reason_cloud_principal_delete_error = "CloudPrincipalDeleteError"

abbrev pub reason_cloud_principal_spec_restricted : String
reason_cloud_principal_spec_restricted = "CloudPrincipalSpecRestricted"

abbrev pub reason_cloud_principal_remove_finalizer_error : String
reason_cloud_principal_remove_finalizer_error = "CloudPrincipalRemoveFinalizerError"

abbrev pub reason_cloud_principal_unsupported_features : String
reason_cloud_principal_unsupported_features = "CloudPrincipalUnsupportedFeatures"

abbrev pub reason_cloud_principal_ensure_error : String
reason_cloud_principal_ensure_error = "CloudPrincipalEnsureError"

abbrev pub reason_cloud_principal_reconciled : String
reason_cloud_principal_reconciled = "Reconciled"

abbrev pub reason_cloud_principal_ready : String
reason_cloud_principal_ready = "CloudPrincipalReady"

-- Reasons of ProviderConfig resources.
abbrev pub reason_provider_config_not_found : String
reason_provider_config_not_found = "ProviderConfigNotFound"

abbrev pub reason_provider_config_get_failed : String
reason_provider_config_get_failed = "ProviderConfigGetFailed"

abbrev pub reason_provider_config_error : String
reason_provider_config_error = "ProviderConfigError"

abbrev pub reason_provider_config_invalid_spec : String
reason_provider_config_invalid_spec = "ProviderConfigInvalidSpec"

abbrev pub reason_provider_config_reconciled : String
reason_provider_config_reconciled = "Reconciled"

abbrev pub reason_provider_config_not_ready : String
reason_provider_config_not_ready = "ProviderConfigNotReady"

-- Reasons of BucketAccess resources.
abbrev pub reason_bucket_access_get_failed : String
reason_bucket_access_get_failed = "BucketAccessGetFailed"

abbrev pub reason_bucket_access_dependency_not_ready : String
reason_bucket_access_dependency_not_ready = "BucketAccessDependencyNotReady"

abbrev pub reason_bucket_access_provider_config_miss_match : String
reason_bucket_access_provider_config_miss_match = "BucketAccessProviderConfigMissMatch"

abbrev pub reason_bucket_access_spec_restricted : String
reason_bucket_access_spec_restricted = "BucketAccessSpecRestricted"

abbrev pub reason_bucket_access_delete_error : String
reason_bucket_access_delete_error = "BucketAccessDeleteError"

abbrev pub reason_bucket_access_remove_finalizer_error : String
reason_bucket_access_remove_finalizer_error = "BucketAccessRemoveFinalizerError"

abbrev pub reason_bucket_access_unsupported_features : String
reason_bucket_access_unsupported_features = "BucketAccessUnsupportedFeatures"

abbrev pub reason_bucket_access_ensure_error : String
reason_bucket_access_ensure_error = "BucketAccessEnsureError"

abbrev pub reason_bucket_access_reconciled : String
reason_bucket_access_reconciled = "Reconciled"
