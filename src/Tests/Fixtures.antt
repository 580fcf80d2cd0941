-- ===== src/Tests/Fixtures.antt =====
-- A cluster and a cloud with fixed answers, and the resources in it.
use vedro.Prelude.{
  ◌≡◌, refl, String, true, false, ◌==◌, ◌⧺◌, eq_refl, none, some, List, [], ◌∷◌, contains,
  if◌then◌else◌, arith,
}
use vedro.Errors.{Error, ok, err, api, not_found}
use vedro.Conditions.{Condition, condition_true, type_ready}
use vedro.Api.Meta.{NamespacedName}
use vedro.Api.Provider.{ProviderConfig, UsagePolicySpec, zero_provider_config, zero_usage_policy}
use vedro.Api.Bucket.{Bucket, BucketProperties, zero_bucket}
use vedro.Cloud.{Capabilities}
use vedro.Validation.{ValidationResult}
use vedro.UsagePolicy.{Regexp}
use vedro.Kube.Events.{Provider}
use vedro.Kube.Environment.{Env, RetriesConflicts, last, HandlesFinalizers}

-- Every pattern compiles and matches only itself.
abbrev pub literal_patterns : Regexp
literal_patterns = record { compiles = λ p. true; matches = λ p s. p == s }

abbrev pub team_policy : UsagePolicySpec
team_policy = record zero_usage_policy {
  allowed_namespaces = record { names = "team" ∷ []; all = false };
  bucket_policy = record { allowed_name_patterns = "data" ∷ [] };
  principal_policy = record {
    allowed_name_patterns = "robot" ∷ [];
    allowed_reference_patterns = [];
    allow_managed = true;
    allow_references = false;
    allowed_kinds = "ServiceAccount" ∷ [];
  };
}

abbrev pub ready : Condition
ready = record {
  type = type_ready;
  status = condition_true;
  observed_generation = 1;
  last_transition_time = 7;
  reason = "Reconciled";
  message = "";
}

abbrev pub team_config : ProviderConfig
team_config = record zero_provider_config {
  metadata = record {
    name = "cloud";
    namespace = "";
    generation = 1;
    deletion_timestamp = none;
    finalizers = [];
  };
  spec = record zero_provider_config.spec { type = "gcp"; usage_policy = team_policy };
  status = record { conditions = ready ∷ []; observed_generation = 1 };
}

abbrev pub no_properties : BucketProperties
no_properties = record {
  public_access_prevention = none;
  versioning = none;
  lifecycle = none;
  storage_class = "Standard";
  labels = none;
  cloud_specific_config = none;
}

abbrev pub active_bucket : Bucket
active_bucket = record zero_bucket {
  metadata = record {
    name = "data";
    namespace = "team";
    generation = 1;
    deletion_timestamp = none;
    finalizers = "vedro.svetoch.dev/bucket-finalizer" ∷ [];
  };
  spec = record zero_bucket.spec {
    provider_ref = record { name = "cloud" };
    storage_class = "Standard";
    deletion_policy = "Delete";
  };
}

-- It was provisioned, and is being deleted.
abbrev pub deleted_bucket : Bucket
deleted_bucket = record active_bucket {
  metadata = record active_bucket.metadata { deletion_timestamp = some 12 };
  status = record active_bucket.status {
    external_name = "data";
    external_id = "data";
    observed_provider = "cloud";
    applied = some no_properties;
  };
}

abbrev valid : ValidationResult
valid = record { valid = true; message = "" }

abbrev pub full_capabilities : Capabilities
full_capabilities = record {
  bucket = record {
    lifecycle = record { rule_names = false; rule_expiration = true };
    storage_class = record { ice = true; cold = true; warm = true };
    versioning = true;
    public_access_prevention = true;
    labels = true;
  };
  bucket_access = record {
    object_reader = true;
    object_writer = true;
    object_admin = true;
    bucket_admin = false;
  };
  principal = record {
    managed_kinds = ("ServiceAccount", true) ∷ [];
    referenced_kinds = ("ServiceAccount", true) ∷ ("AllUsers", true) ∷ [];
  };
  principal_auth = record {
    static_credentials = true;
    workload_identity = true;
    workload_identity_kinds = ("ServiceAccount", true) ∷ [];
    static_credentials_kinds = ("ServiceAccount", true) ∷ [];
  };
}

abbrev pub provider : Provider
provider = record {
  capabilities = full_capabilities;
  validate_provider_config_spec = λ c. valid;
  validate_bucket_spec = λ b t. valid;
  validate_principal_spec = λ p. valid;
}

unfoldable pub without : List String → String → List String
without [] f = []
without (x ∷ xs) f = let rest = without xs f in if x == f then rest else x ∷ rest

contains-without : (fs : List String) (f : String) → contains (without fs f) f ≡ false
unfolding contains without
contains-without [] f = refl
contains-without (x ∷ xs) f = ground (arith, contains-without xs f)

abbrev absent : Error
absent = api not_found "not found"

-- The cluster holds one bucket and one ProviderConfig; every call succeeds.
abbrev pub cluster : Bucket → Env
cluster b = record {
  get_bucket = λ h n. ok b;
  list_buckets = λ h. ok (b ∷ []);
  update_bucket = λ h b'. ok b';
  patch_bucket = λ h b'. none;
  get_access = λ h n. err absent;
  list_accesses = λ h. ok [];
  update_access = λ h a. ok a;
  patch_access = λ h a. none;
  delete_access = λ h a. none;
  get_principal = λ h n. err absent;
  list_principals = λ h. ok [];
  update_principal = λ h p. ok p;
  patch_principal = λ h p. none;
  list_auths = λ h. ok [];
  get_config = λ h n. ok team_config;
  update_config = λ h c. ok c;
  patch_config = λ h c. none;
  list_configs_with = λ h k. ok [];
  list_auths_with = λ h n k. ok [];
  print_name = λ n. n.namespace ⧺ "/" ⧺ n.name;
  new_provider = λ h c. ok provider;
  cleanup = λ h. none;
  ensure_bucket = λ h b'.
      ok (record { name = "data"; location = "eu"; id = "data"; properties = some no_properties });
  delete_bucket = λ h b'. none;
  ensure_access = λ h b' p a. err absent;
  delete_external_access = λ h a. none;
  ensure_principal = λ h p. err absent;
  delete_principal = λ h p. none;
  set_status_condition = λ cs c. c ∷ cs;
  retry_on_conflict = λ m. m;
  regexp = literal_patterns;
  contains_finalizer = contains;
  add_finalizer = λ fs f. f ∷ fs;
  remove_finalizer = without;
}

pub cluster-RetriesConflicts : (b : Bucket) → RetriesConflicts (cluster b)
cluster-RetriesConflicts b m h = last refl

pub cluster-HandlesFinalizers : (b : Bucket) → HandlesFinalizers (cluster b)
unfolding contains
cluster-HandlesFinalizers b = record {
  contains-add = λ fs f. ground (arith, eq_refl f);
  contains-remove = contains-without;
}

abbrev pub data_name : NamespacedName
data_name = record { name = "data"; namespace = "team" }
