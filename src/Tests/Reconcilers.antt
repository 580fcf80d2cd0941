-- ===== src/Tests/Reconcilers.antt =====
-- The reconcilers on a cluster with one bucket.
use vedro.Prelude.{◌≡◌, refl, true, none, some, [], ◌∷◌, suc, ◌<◌, if◌then◌else◌, arith}
use vedro.Prelude
use vedro.Kube
use vedro.Resolvers
use vedro.UsagePolicy
use vedro.Helpers
use vedro.Capabilities
use vedro.Tests.Fixtures.{
  cluster, cluster-RetriesConflicts, cluster-HandlesFinalizers, data_name, deleted_bucket,
  active_bucket, provider, team_config, without,
}
use vedro.Api.Bucket.{Bucket}
use vedro.Api.Provider.{ProviderConfig}
use vedro.Errors.{ok}
use vedro.Conditions.{type_ready, type_provider_config_ready}
use vedro.Kube.Events.{bucket_get}
use vedro.Kube.{Resolver, new_condition}
use vedro.Kube.Quiet.{count}
use vedro.Controller.Buckets.Apply.{with_provider}
use vedro.Controller.Buckets.Reconcile.{reconcile_bucket}
use vedro.Controller.Buckets.Removal.{removes}
use vedro.Controller.Buckets.Ensure.{ensures, passes_gates, with_provider-ensures}
use vedro.Controller.Buckets.Deletion.{MayRemove, reconcile_bucket-removal}
use vedro.Controller.Buckets.Cleanup.{reconcile_bucket-cleanup}
use vedro.Controller.Balance.{made, cleans}

-- The finalizer is removed once.
finalizer_removed :
    count
      (removes (cluster deleted_bucket))
      (reconcile_bucket (cluster deleted_bucket) data_name []).1
    ≡ 1
unfolding reconcile_bucket count Prelude.contains Kube.any Resolvers.is_ready
    UsagePolicy.check_bucket UsagePolicy.is_namespace_allowed UsagePolicy.is_name_allowed
    Helpers.bucket_name_for_delete without
finalizer_removed = refl

reconcile_bucket-removal_example :
    MayRemove
      (cluster deleted_bucket)
      data_name
      (cluster-RetriesConflicts deleted_bucket)
      (cluster-HandlesFinalizers deleted_bucket)
      deleted_bucket
      (bucket_get data_name (ok deleted_bucket) ∷ [])
      (reconcile_bucket (cluster deleted_bucket) data_name []).1
reconcile_bucket-removal_example =
    reconcile_bucket-removal (cluster deleted_bucket) data_name
      (cluster-RetriesConflicts deleted_bucket) (cluster-HandlesFinalizers deleted_bucket)
      deleted_bucket refl (omega (arith, finalizer_removed))

reconcile_bucket-cleanup_example :
    count made (reconcile_bucket (cluster active_bucket) data_name []).1
    ≡ count cleans (reconcile_bucket (cluster active_bucket) data_name []).1
reconcile_bucket-cleanup_example =
    reconcile_bucket-cleanup (cluster active_bucket) data_name
      (cluster-RetriesConflicts active_bucket)

abbrev bucket_found : Resolver Bucket
bucket_found = record {
  object = active_bucket;
  condition = new_condition type_ready "False";
  error = none;
}

abbrev config_found : Resolver ProviderConfig
config_found = record {
  object = team_config;
  condition = new_condition type_provider_config_ready "True";
  error = none;
}

-- The gates stand open.
gates_open : passes_gates (cluster active_bucket) bucket_found config_found provider ≡ true
unfolding UsagePolicy.check_bucket UsagePolicy.is_namespace_allowed Prelude.contains
    UsagePolicy.is_name_allowed Helpers.bucket_name_from_cr
    vedro.Capabilities.validate_bucket_capabilities Capabilities.append_if
    vedro.Capabilities.lifecycle_features
gates_open = refl

with_provider-ensures_example :
    count ensures
      (with_provider
        (cluster active_bucket)
        data_name
        bucket_found
        config_found
        (some provider)
        []).1
    ≡ (if passes_gates (cluster active_bucket) bucket_found config_found provider
        then suc (count ensures [])
        else count ensures [])
with_provider-ensures_example =
    with_provider-ensures (cluster active_bucket) data_name (cluster-RetriesConflicts active_bucket)
      bucket_found config_found provider []
