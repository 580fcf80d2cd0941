-- ===== src/Controller/Accesses/Delete.antt =====
-- The finalizer and `deleteBucketAccess` of internal/controller/bucket_access_controller.go.
use vedro.Prelude.{String, not, ◌&&◌, Option, none, some, List, ◌∷◌, if◌then◌else◌}
use vedro.Errors.{Error, Result, ok, err, message}
use vedro.Conditions.{
  Condition, condition_false, reason_bucket_access_delete_error,
  reason_bucket_access_remove_finalizer_error,
}
use vedro.Api.Meta.{NamespacedName}
use vedro.Api.Access.{BucketAccess}
use vedro.Resolvers.{access_should_be_deleted, access_is_provisioned}
use vedro.UsagePolicy.{Decision, check_bucket_access}
use vedro.Kube.{Resolver}
use vedro.Kube.Events.{M, ◌>>=◌, pure, access_update, external_access_delete}
use vedro.Kube.Environment.{Env}
use vedro.Controller.Finish.{
  Finish, reconciled, reconcile_error, set_state, patch_then, with_cleanup,
}
use vedro.Controller.Setup.{ProviderSetup, ProviderSetupIssue, prepare_provider}
use vedro.Controller.Patch.{set_access_condition, patch_access_status}

abbrev pub access_finalizer : String
access_finalizer = "vedro.svetoch.dev/bucketaccess-finalizer"

abbrev pub access_with_finalizers : BucketAccess → List String → BucketAccess
access_with_finalizers a fs = record a { metadata = record a.metadata { finalizers = fs } }

-- The return after an `Update` of the access.
abbrev pub access_updated : Result BucketAccess → Finish
access_updated (ok a) = reconciled
access_updated (err e) = reconcile_error (some e)

-- The condition of an access that is kept.
abbrev pub kept_access_condition : Resolver BucketAccess → Condition
kept_access_condition r =
    set_state r.condition condition_false reason_bucket_access_remove_finalizer_error
      "Cant remove BucketAccess because it was already provisioned and spec is restricted by usagePolicy"

module _ (env : Env) (name : NamespacedName) where
  -- `r.Update(ctx, &access.BucketAccess)`.
  unfoldable pub update_access : BucketAccess → M (Result BucketAccess)
  update_access a h = let answer = env.update_access h a in (answer, access_update a answer ∷ h)

  -- The end of `deleteBucketAccess`: the finalizer is removed.
  unfoldable pub remove_access_finalizer : Resolver BucketAccess → M Finish
  unfolding update_access
  remove_access_finalizer r = do
    answer ← update_access (
        access_with_finalizers r.object
          (env.remove_finalizer r.object.metadata.finalizers access_finalizer))
    pure (access_updated answer)

  -- `r.patchStatus` with the condition of the access, and the return.
  abbrev pub report_access : Resolver BucketAccess → Condition → Finish → M Finish
  report_access r c finish =
      patch_then
        (patch_access_status env name r.object.metadata.generation (set_access_condition env c))
        finish

  -- `provider.Access().DeleteBucketAccess(ctx, access.BucketAccess)`.
  unfoldable pub call_delete_access : BucketAccess → M (Option Error)
  call_delete_access a h =
      let answer = env.delete_external_access h a in (answer, external_access_delete a answer ∷ h)

  -- What follows the external deletion of the access.
  unfoldable pub after_access_delete : Resolver BucketAccess → Option Error → M Finish
  unfolding remove_access_finalizer
  after_access_delete r none = remove_access_finalizer r
  after_access_delete r (some e) =
      report_access r
        (set_state r.condition condition_false reason_bucket_access_delete_error (message e))
        (reconcile_error (some e))

  -- The two branches on the decision of the usage policy.
  unfoldable pub delete_access_decided : Resolver BucketAccess → Decision → M Finish
  unfolding call_delete_access after_access_delete
  delete_access_decided r d =
      if d.allowed
      then (do answer ← call_delete_access r.object; after_access_delete r answer)
      else if access_is_provisioned r.object
      then report_access r (kept_access_condition r) reconciled
      else remove_access_finalizer r

  -- `deleteBucketAccess` once the provider was prepared.
  unfoldable pub delete_access_prepared :
      Resolver BucketAccess → ProviderSetup × Option ProviderSetupIssue → M Finish
  unfolding with_cleanup delete_access_decided
  delete_access_prepared r (setup, some issue) =
      with_cleanup env setup.provider (pure (reconcile_error issue.error))
  delete_access_prepared r (setup, none) =
      with_cleanup env setup.provider (
        delete_access_decided r
          (check_bucket_access setup.config.object.spec.usage_policy r.object))

  -- `deleteBucketAccess`; without an applied access there is no provider to ask.
  unfoldable pub delete_access : Resolver BucketAccess → M Finish
  unfolding prepare_provider delete_access_prepared remove_access_finalizer
  delete_access r =
      if not (env.contains_finalizer r.object.metadata.finalizers access_finalizer)
      then pure reconciled
      else if access_should_be_deleted r.object && access_is_provisioned r.object
      then (do
        prepared ← prepare_provider env (record { name = r.object.status.observed_provider })
        delete_access_prepared r prepared)
      else remove_access_finalizer r
