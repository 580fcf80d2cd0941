-- ===== src/Tests/Principals.antt =====
-- The reconcilers of principals and of ProviderConfigs on a cluster with one of each.
use vedro.Prelude.{
  ◌≡◌, refl, String, Bool, true, false, none, some, [], ◌∷◌, suc, ◌<◌, if◌then◌else◌, arith,
  eq_refl, ◌&&◌, ◌==◌,
}
use vedro.Prelude
use vedro.Resolvers
use vedro.UsagePolicy
use vedro.Helpers
use vedro.Capabilities
use vedro.Tests.Fixtures.{
  cluster, cluster-HandlesFinalizers, active_bucket, provider, team_config, without,
}
use vedro.Errors.{ok}
use vedro.Conditions.{type_ready, type_provider_config_ready}
use vedro.Api.Meta.{NamespacedName}
use vedro.Api.Provider.{ProviderConfig}
use vedro.Api.Principal.{CloudPrincipal, zero_cloud_principal}
use vedro.Kube.{Resolver, new_condition, any}
use vedro.Kube.Events.{principal_get}
use vedro.Kube.Environment.{Env, RetriesConflicts, last, HandlesFinalizers}
use vedro.Kube.Quiet.{count}
use vedro.Controller.Balance.{made, cleans}
use vedro.Controller.Principals.Apply.{with_principal_provider}
use vedro.Controller.Principals.Reconcile.{reconcile_principal}
use vedro.Controller.Principals.Removal.{principal_removes}
use vedro.Controller.Principals.Ensure.{
  principal_ensures, principal_passes_gates, with_principal_provider-ensures,
}
use vedro.Controller.Principals.Deletion.{MayRemovePrincipal, reconcile_principal-removal}
use vedro.Controller.Principals.Cleanup.{reconcile_principal-cleanup}

abbrev robot_name : NamespacedName
robot_name = record { name = "robot"; namespace = "team" }

abbrev robot : CloudPrincipal
robot = record zero_cloud_principal {
  metadata = record {
    name = "robot";
    namespace = "team";
    generation = 1;
    deletion_timestamp = none;
    finalizers = "vedro.svetoch.dev/cloudprincipal-finalizer" ∷ [];
  };
  spec = record zero_cloud_principal.spec {
    provider_ref = record { name = "cloud" };
    kind = "ServiceAccount";
    management_policy = "Managed";
    managed = some (record { name = "robot"; deletion_policy = "Delete" });
  };
}

-- It was provisioned, and is being deleted.
abbrev deleted_robot : CloudPrincipal
deleted_robot = record robot {
  metadata = record robot.metadata { deletion_timestamp = some 12 };
  status = record robot.status {
    external_name = "robot";
    external_id = "7";
    observed_provider = "cloud";
    kind = "ServiceAccount";
    management_policy = "Managed";
  };
}

-- The cluster with a principal.
abbrev robot_cluster : CloudPrincipal → Env
robot_cluster p = record (cluster active_bucket) {
  get_principal = λ h n. ok p;
  list_principals = λ h. ok (p ∷ []);
  ensure_principal =
      λ h q. ok (record { name = "robot"; kind = "ServiceAccount"; policy = "Managed"; id = "7" });
}

retries : (p : CloudPrincipal) → RetriesConflicts (robot_cluster p)
retries p m h = last refl

finalizers : (p : CloudPrincipal) → HandlesFinalizers (robot_cluster p)
finalizers p = record {
  contains-add = (cluster-HandlesFinalizers active_bucket).contains-add;
  contains-remove = (cluster-HandlesFinalizers active_bucket).contains-remove;
}

-- The finalizer is removed once.
principal_finalizer_removed :
    count
      (principal_removes (robot_cluster deleted_robot))
      (reconcile_principal (robot_cluster deleted_robot) robot_name []).1
    ≡ 1
unfolding count reconcile_principal Prelude.contains any Resolvers.principal_should_be_deleted
    Resolvers.is_ready UsagePolicy.check_principal UsagePolicy.is_namespace_allowed
    UsagePolicy.check_managed UsagePolicy.is_name_allowed Helpers.principal_name_for_delete
    UsagePolicy.check_reference without
principal_finalizer_removed = refl

reconcile_principal-removal_example :
    MayRemovePrincipal
      (robot_cluster deleted_robot)
      robot_name
      (retries deleted_robot)
      (finalizers deleted_robot)
      deleted_robot
      (principal_get robot_name (ok deleted_robot) ∷ [])
      (reconcile_principal (robot_cluster deleted_robot) robot_name []).1
reconcile_principal-removal_example =
    reconcile_principal-removal (robot_cluster deleted_robot) robot_name (retries deleted_robot)
      (finalizers deleted_robot) deleted_robot refl (omega (arith, principal_finalizer_removed))

reconcile_principal-cleanup_example :
    count made (reconcile_principal (robot_cluster robot) robot_name []).1
    ≡ count cleans (reconcile_principal (robot_cluster robot) robot_name []).1
reconcile_principal-cleanup_example =
    reconcile_principal-cleanup (robot_cluster robot) robot_name (retries robot)

abbrev robot_found : Resolver CloudPrincipal
robot_found = record { object = robot; condition = new_condition type_ready "False"; error = none }

abbrev config_found : ProviderConfig → Resolver ProviderConfig
config_found c = record {
  object = c;
  condition = new_condition type_provider_config_ready "True";
  error = none;
}

-- The gates stand open.
principal_gates_open :
    principal_passes_gates (robot_cluster robot) robot_found (config_found team_config) provider
    ≡ true
unfolding UsagePolicy.check_principal UsagePolicy.is_namespace_allowed Prelude.contains
    UsagePolicy.check_managed UsagePolicy.is_name_allowed Helpers.principal_name_from_cr
    UsagePolicy.check_reference Capabilities.validate_principal_capabilities Capabilities.append_if
    Capabilities.supports_kind
principal_gates_open = refl

with_principal_provider-ensures_example :
    count principal_ensures
      (with_principal_provider
        (robot_cluster robot)
        robot_name
        robot_found
        (config_found team_config)
        (some provider)
        []).1
    ≡ (if principal_passes_gates
          (robot_cluster robot)
          robot_found
          (config_found team_config)
          provider
        then suc (count principal_ensures [])
        else count principal_ensures [])
with_principal_provider-ensures_example =
    with_principal_provider-ensures (robot_cluster robot) robot_name (retries robot) robot_found
      (config_found team_config) provider []
