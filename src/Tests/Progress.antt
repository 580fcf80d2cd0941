-- ===== src/Tests/Progress.antt =====
-- A deletion that runs to its end, and a bucket that cannot be ensured.
use vedro.Prelude.{◌≡◌, refl, true, none, some, [], ◌<◌, arith}
use vedro.Prelude
use vedro.Kube
use vedro.Resolvers
use vedro.UsagePolicy
use vedro.Helpers
use vedro.Capabilities
use vedro.Tests.Fixtures.{
  cluster, cluster-HandlesFinalizers, data_name, deleted_bucket, active_bucket, provider,
  team_config,
}
use vedro.Errors.{err, plain}
use vedro.Api.Bucket.{Bucket}
use vedro.UsagePolicy.{Decision, returns, check_bucket}
use vedro.Kube.{Resolver, new_condition}
use vedro.Kube.Environment.{Env, RetriesConflicts, last}
use vedro.Controller.Buckets.Reconcile.{reconcile_bucket}
use vedro.Controller.Buckets.Progress.{IsDone, reconcile_bucket-IsDone}
use vedro.Kube.Quiet.{count}
use vedro.Controller.Buckets.Failure.{Fails, fails}
use vedro.Controller.Buckets.Failure.Run.{reconcile_bucket-Fails}

team_config-ready : (Resolvers.is_ready 1 team_config.status.conditions).1 ≡ true
unfolding Resolvers.is_ready
team_config-ready = refl

abbrev allowed_decision : Decision
allowed_decision = record { allowed = true; message = "Allowed" }

deleted_bucket-allowed :
    check_bucket (cluster deleted_bucket).regexp team_config.spec.usage_policy deleted_bucket
    ≡ returns allowed_decision
unfolding check_bucket UsagePolicy.is_namespace_allowed Prelude.contains UsagePolicy.is_name_allowed
    Helpers.bucket_name_for_delete
deleted_bucket-allowed = refl

deleted_bucket-has_finalizer :
    Prelude.contains deleted_bucket.metadata.finalizers "vedro.svetoch.dev/bucket-finalizer" ≡ true
unfolding Prelude.contains
deleted_bucket-has_finalizer = refl

reconcile_bucket-IsDone_example :
    IsDone
      (cluster deleted_bucket)
      data_name
      (cluster-HandlesFinalizers deleted_bucket)
      (λ h b. refl)
      (reconcile_bucket (cluster deleted_bucket) data_name [])
unfolding Kube.any
reconcile_bucket-IsDone_example =
    reconcile_bucket-IsDone (cluster deleted_bucket) data_name
      (cluster-HandlesFinalizers deleted_bucket) (λ h b. refl) team_config provider (λ h n. refl)
      team_config-ready (λ h. refl) deleted_bucket [] allowed_decision refl refl
      deleted_bucket-has_finalizer (λ h. refl) refl refl deleted_bucket-allowed refl (λ h. refl)

abbrev broken_cloud : Env
broken_cloud = record (cluster active_bucket) { ensure_bucket = λ h b. err (plain "no quota") }

broken_cloud-RetriesConflicts : RetriesConflicts broken_cloud
broken_cloud-RetriesConflicts m h = last refl

-- One call of the cloud fails.
failed_once : count fails (reconcile_bucket broken_cloud data_name []).1 ≡ 1
unfolding count reconcile_bucket Prelude.contains Resolvers.is_ready check_bucket
    UsagePolicy.is_namespace_allowed UsagePolicy.is_name_allowed Helpers.bucket_name_from_cr
    Capabilities.validate_bucket_capabilities Capabilities.append_if Capabilities.lifecycle_features
    vedro.Controller.Patch.patch_bucket_status vedro.Controller.Patch.patch_bucket_once
    vedro.Api.Bucket.BucketStatus-discrete Prelude.String-discrete Prelude.Bool-cases
    native.Mathlib.Decide.ℕ_discrete
failed_once = refl

reconcile_bucket-Fails_example : Fails (reconcile_bucket broken_cloud data_name []).0
unfolding count
reconcile_bucket-Fails_example =
    reconcile_bucket-Fails broken_cloud data_name broken_cloud-RetriesConflicts []
      (omega (arith, failed_once))
