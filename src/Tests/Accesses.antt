-- ===== src/Tests/Accesses.antt =====
-- The reconciler of accesses on a cluster.
use vedro.Prelude.{
  ◌≡◌, ◌⊎◌, false, refl, suc, ◌<◌, ◌==◌, ◌&&◌, true, none, some, [], ◌∷◌, if◌then◌else◌, arith,
}
use vedro.Prelude
use vedro.Capabilities
use vedro.Resolvers
use vedro.Controller.Patch
use vedro.Conditions.{condition_true}
use vedro.Api.Bucket.{Bucket}
use vedro.Api.Access.{BucketAccess, zero_bucket_access}
use vedro.Api.Principal.{CloudPrincipal, zero_cloud_principal}
use vedro.UsagePolicy.{check_bucket_access}
use vedro.Kube.{Resolver, new_condition}
use vedro.Kube.Quiet.{count}
use vedro.Controller.Accesses.Apply.{reconcile_bucket_access}
use vedro.Controller.Setup.{prepare_provider}
use vedro.Controller.Accesses.Reconcile.{dependencies_judged}
use vedro.Controller.Accesses.Ensure.{
  grants, reconcile_bucket_access-grants, dependencies_judged-gate,
}
use vedro.Resolvers.{access_should_be_deleted, access_is_provisioned}
use vedro.Controller.Accesses.Delete.{delete_access}
use vedro.Controller.Accesses.Removal.{removes_access, ends_access, delete_access-removal}
use vedro.Tests.Fixtures.{
  cluster, cluster-RetriesConflicts, data_name, active_bucket, provider, team_config, team_policy,
}

abbrev reader : BucketAccess
reader = record zero_bucket_access {
  metadata = record zero_bucket_access.metadata { name = "read"; namespace = "team" };
  spec = record zero_bucket_access.spec { access = record { level = "ObjectReader" } };
}

abbrev robot : CloudPrincipal
robot = record zero_cloud_principal {
  spec = record zero_cloud_principal.spec { provider_ref = record { name = "cloud" } };
}

abbrev access_found : Resolver BucketAccess
access_found = record { object = reader; condition = new_condition "Ready" "False"; error = none }

abbrev bucket_ready : Resolver Bucket
bucket_ready = record {
  object = active_bucket;
  condition = new_condition "BucketReady" "True";
  error = none;
}

abbrev principal_ready : Resolver CloudPrincipal
principal_ready = record {
  object = robot;
  condition = new_condition "CloudPrincipalReady" "True";
  error = none;
}

reconcile_bucket_access-grants_example :
    count grants
      (reconcile_bucket_access
        (cluster active_bucket)
        data_name
        access_found
        bucket_ready
        principal_ready
        []).1
    ≡ 1
unfolding count check_bucket_access Prelude.contains prepare_provider Resolvers.is_ready
    Capabilities.validate_bucket_access_capabilities Capabilities.append_if
reconcile_bucket_access-grants_example =
    reconcile_bucket_access-grants (cluster active_bucket) data_name
      (cluster-RetriesConflicts active_bucket) access_found bucket_ready principal_ready []

-- The access is ensured once.
ensured_once :
    count grants
      (dependencies_judged
        (cluster active_bucket)
        data_name
        access_found
        bucket_ready
        principal_ready
        []).1
    ≡ 1
unfolding count dependencies_judged Resolvers.is_ready check_bucket_access Prelude.contains
    Capabilities.validate_bucket_access_capabilities Capabilities.append_if
    vedro.Controller.Patch.patch_access_status vedro.Controller.Patch.patch_access_once
ensured_once = refl

dependencies_judged-gate_example :
    (("True" == condition_true) ≡ true)
    × (("True" == condition_true) ≡ true)
    × (("cloud" == "cloud") ≡ true)
unfolding count
dependencies_judged-gate_example =
    dependencies_judged-gate (cluster active_bucket) data_name
      (cluster-RetriesConflicts active_bucket) access_found bucket_ready principal_ready []
      (omega (arith, ensured_once))

abbrev applied_reader : Resolver BucketAccess
applied_reader = record access_found {
  object = record reader {
    metadata = record reader.metadata {
      deletion_timestamp = some 12;
      finalizers = "vedro.svetoch.dev/bucketaccess-finalizer" ∷ [];
    };
    spec = record reader.spec { deletion_policy = "Delete" };
    status = record reader.status {
      observed_provider = "cloud";
      applied = some (record {
        bucket_name = "data";
        bucket_id = "data";
        principal_id = "robot";
        granted_access = "ObjectReader";
      });
    };
  };
}

-- The finalizer is removed once.
access_finalizer_removed :
    count
      (removes_access (cluster active_bucket))
      (delete_access (cluster active_bucket) data_name applied_reader []).1
    ≡ 1
unfolding count delete_access Prelude.contains Resolvers.is_ready check_bucket_access
    vedro.Tests.Fixtures.without
access_finalizer_removed = refl

delete_access-removal_example :
    (access_should_be_deleted applied_reader.object ≡ false)
    ⊎ ((access_is_provisioned applied_reader.object ≡ false)
        ⊎ (0
            < count ends_access
                (delete_access (cluster active_bucket) data_name applied_reader []).1))
unfolding count
delete_access-removal_example =
    delete_access-removal (cluster active_bucket) data_name (cluster-RetriesConflicts active_bucket)
      applied_reader [] refl (omega (arith, access_finalizer_removed))
