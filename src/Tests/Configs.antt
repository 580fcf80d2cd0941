-- ===== src/Tests/Configs.antt =====
-- The reconciler of ProviderConfigs and the watches on a cluster with one of each resource.
use vedro.Prelude.{◌≡◌, refl, Bool, true, none, some, [], ◌∷◌, ◌<◌, arith, ◌&&◌, ap}
use vedro.Prelude
use vedro.Tests.Fixtures.{cluster, cluster-HandlesFinalizers, active_bucket, team_config, without}
use vedro.Errors.{ok}
use vedro.Conditions.{type_provider_config_ready}
use vedro.Api.Meta.{NamespacedName}
use vedro.Api.Provider.{ProviderConfig}
use vedro.Api.Access.{BucketAccess, zero_bucket_access}
use vedro.Api.Principal.{CloudPrincipal, CloudPrincipalAuth, zero_cloud_principal}
use vedro.Kube.{
  Resolver, new_condition, any, bucket_refers_to_config, access_refers_to_bucket,
  principal_refers_to_config, auth_refers_to_principal,
}
use vedro.Kube.Events.{config_get, Provider}
use vedro.Kube.Environment.{
  Env, RetriesConflicts, last, HandlesFinalizers, SetsCondition, find_condition,
}
use vedro.Kube.Quiet.{count}
use vedro.Controller.Balance.{made, cleans}
use vedro.Controller.Configs.Reconcile.{reconcile_config, reconcile_active_config}
use vedro.Controller.Configs.Referenced.{UnreferencedConfig}
use vedro.Controller.Configs.Removal.{config_removes, reconcile_config-removal}
use vedro.Controller.Configs.Cleanup.{reconcile_config-cleanup}
use vedro.Controller.Configs.Ready.{declares_ready, reconcile_active_config-ready}
use vedro.Resolvers.{is_being_deleted}
use vedro.Controller.Watches.{name_of, find_accesses_of_config, find_auths_of_config}
use vedro.Controller.Watches.Requests.{
  is_name, find_accesses_of_config-requests, find_auths_of_config-requests,
}

abbrev cloud_name : NamespacedName
cloud_name = record { name = "cloud"; namespace = "" }

abbrev deleted_config : ProviderConfig
deleted_config = record team_config {
  metadata = record team_config.metadata {
    deletion_timestamp = some 12;
    finalizers = "vedro.svetoch.dev/providerconfig-finalizer" ∷ [];
  };
}

-- The cluster with only a ProviderConfig.
abbrev empty_cluster : ProviderConfig → Env
empty_cluster c = record (cluster active_bucket) {
  list_buckets = λ h. ok [];
  get_config = λ h n. ok c;
}

retries : (c : ProviderConfig) → RetriesConflicts (empty_cluster c)
retries c m h = last refl

finalizers : (c : ProviderConfig) → HandlesFinalizers (empty_cluster c)
finalizers c = record {
  contains-add = (cluster-HandlesFinalizers active_bucket).contains-add;
  contains-remove = (cluster-HandlesFinalizers active_bucket).contains-remove;
}

sets : (c : ProviderConfig) → SetsCondition (empty_cluster c)
unfolding find_condition
sets c = record {
  other = λ cs x t n. ground (arith, n);
  own = λ cs x. (x.last_transition_time, ground (arith, Prelude.eq_refl x.type));
}

config_finalizer_removed :
    count
      (config_removes (empty_cluster deleted_config))
      (reconcile_config (empty_cluster deleted_config) cloud_name []).1
    ≡ 1
unfolding count reconcile_config Prelude.contains any without
config_finalizer_removed = refl

reconcile_config-removal_example :
    (is_being_deleted deleted_config.metadata ≡ true)
    × UnreferencedConfig
        (empty_cluster deleted_config)
        deleted_config.metadata
        (config_get cloud_name (ok deleted_config) ∷ [])
reconcile_config-removal_example =
    reconcile_config-removal (empty_cluster deleted_config) cloud_name (retries deleted_config)
      (finalizers deleted_config) deleted_config refl (omega (arith, config_finalizer_removed))

reconcile_config-cleanup_example :
    count made (reconcile_config (empty_cluster team_config) cloud_name []).1
    ≡ count cleans (reconcile_config (empty_cluster team_config) cloud_name []).1
reconcile_config-cleanup_example =
    reconcile_config-cleanup (empty_cluster team_config) cloud_name (retries team_config)

abbrev config_found : Resolver ProviderConfig
config_found = record {
  object = team_config;
  condition = new_condition type_provider_config_ready "";
  error = none;
}

-- A fresh ProviderConfig is reported as ready.
config_declared :
    count declares_ready
      (reconcile_active_config (empty_cluster team_config) cloud_name config_found []).1
    ≡ 1
unfolding count reconcile_active_config vedro.Controller.Configs.Patches.patch_config_status
    vedro.Controller.Configs.Patches.patch_config_once
    vedro.Api.Provider.ProviderConfigStatus-discrete Prelude.String-discrete Prelude.Bool-cases
    find_condition
config_declared = refl

reconcile_active_config-ready_example :
    (p : Provider) × ((empty_cluster team_config).new_provider [] team_config ≡ ok p)
    × ((p.validate_provider_config_spec team_config).valid ≡ true)
unfolding count
reconcile_active_config-ready_example =
    reconcile_active_config-ready (empty_cluster team_config) cloud_name (retries team_config)
      (sets team_config) config_found refl [] refl (omega (arith, config_declared))

abbrev reader : BucketAccess
reader = record zero_bucket_access {
  metadata = record zero_bucket_access.metadata { name = "reader"; namespace = "team" };
  spec = record zero_bucket_access.spec {
    bucket_ref = record { name = "data"; namespace = "team" };
  };
}

abbrev robot : CloudPrincipal
robot = record zero_cloud_principal {
  metadata = record zero_cloud_principal.metadata { name = "robot"; namespace = "team" };
  spec = record zero_cloud_principal.spec { provider_ref = record { name = "cloud" } };
}

abbrev robot_auth : CloudPrincipalAuth
robot_auth = record {
  metadata = record zero_cloud_principal.metadata { name = "key"; namespace = "team" };
  spec = record {
    principal_ref = record { name = "robot"; namespace = "team" };
    method = "StaticCredentials";
    static_credentials = none;
    workload_identity = none;
  };
  status = record {
    applied = none;
    conditions = [];
    observed_generation = 0;
    observed_provider = "";
    unsupported_features = [];
  };
}

abbrev watched_cluster : Env
watched_cluster = record (cluster active_bucket) {
  list_accesses = λ h. ok (reader ∷ []);
  list_principals = λ h. ok (robot ∷ []);
  list_auths = λ h. ok (robot_auth ∷ []);
}

abbrev reader_name : NamespacedName
reader_name = record { name = "reader"; namespace = "team" }

-- The access is requested.
reader_requested :
    any (is_name reader_name) (find_accesses_of_config watched_cluster team_config []).0 ≡ true
unfolding any find_accesses_of_config
reader_requested = refl

find_accesses_of_config-requests_example :
    any (is_name reader_name) (find_accesses_of_config watched_cluster team_config []).0
    ≡ any
        (λ b.
          bucket_refers_to_config team_config.metadata b
          && any
              (λ a.
                access_refers_to_bucket b.metadata a && is_name reader_name (name_of a.metadata))
              (reader ∷ []))
        (active_bucket ∷ [])
find_accesses_of_config-requests_example =
    find_accesses_of_config-requests watched_cluster team_config reader_name [] (active_bucket ∷ [])
      (reader ∷ []) refl (λ h. refl)

abbrev auth_name : NamespacedName
auth_name = record { name = "key"; namespace = "team" }

find_auths_of_config-requests_example :
    any (is_name auth_name) (find_auths_of_config watched_cluster team_config []).0
    ≡ any
        (λ p.
          principal_refers_to_config team_config.metadata p
          && any
              (λ a. auth_refers_to_principal p.metadata a && is_name auth_name (name_of a.metadata))
              (robot_auth ∷ []))
        (robot ∷ [])
find_auths_of_config-requests_example =
    find_auths_of_config-requests watched_cluster team_config auth_name [] (robot ∷ [])
      (robot_auth ∷ []) refl (λ h. refl)
