-- ===== src/Controller/Buckets/Delete.antt =====
-- The finalizer and `deleteBucket` of internal/controller/bucket_controller.go.
use vedro.Prelude.{
  String, Bool, true, false, not, ◌==◌, Option, none, some, List, ◌∷◌, if◌then◌else◌,
}
use vedro.Errors.{Error, Result, ok, err, message}
use vedro.Conditions.{
  Condition, condition_false, reason_bucket_delete_error, reason_bucket_remove_finalizer_error,
}
use vedro.Api.Meta.{NamespacedName}
use vedro.Api.Bucket.{Bucket}
use vedro.Resolvers.{bucket_should_be_deleted, bucket_is_provisioned}
use vedro.UsagePolicy.{Decision, Outcome, returns, panics, check_bucket}
use vedro.Kube.{Resolver, bucket_is_referenced}
use vedro.Kube.Events.{M, ◌>>=◌, pure, bucket_update, external_bucket_delete}
use vedro.Kube.Environment.{Env}
use vedro.Controller.Finish.{
  Finish, panicked, reconciled, reconcile_error, reconcile_after, set_state, patch_then,
  with_cleanup,
}
use vedro.Controller.Setup.{ProviderSetup, ProviderSetupIssue, prepare_provider}
use vedro.Controller.Patch.{set_bucket_condition, patch_bucket_status}

abbrev pub bucket_finalizer : String
bucket_finalizer = "vedro.svetoch.dev/bucket-finalizer"

abbrev pub with_finalizers : Bucket → List String → Bucket
with_finalizers b fs = record b { metadata = record b.metadata { finalizers = fs } }

-- The return after an `Update`.
abbrev pub updated : {A : Type 0} → Result A → Finish
updated (ok b) = reconciled
updated (err e) = reconcile_error (some e)

-- The condition of a bucket that is kept.
abbrev pub kept_condition : Resolver Bucket → Condition
kept_condition r =
    set_state r.condition condition_false reason_bucket_remove_finalizer_error
      "Cant remove bucket because it was already provisioned and spec is restricted by usagePolicy"

-- The provider that the bucket was last reconciled with, or that of the spec.
unfoldable pub provider_for_delete : Bucket → String
provider_for_delete b =
    if b.status.observed_provider == ""
    then b.spec.provider_ref.name
    else b.status.observed_provider

module _ (env : Env) (name : NamespacedName) where
  -- `r.Update(ctx, &bucket.Bucket)`.
  unfoldable pub update_bucket : Bucket → M (Result Bucket)
  update_bucket b h = let answer = env.update_bucket h b in (answer, bucket_update b answer ∷ h)

  -- The end of `deleteBucket`: the finalizer is removed.
  unfoldable pub remove_finalizer : Resolver Bucket → M Finish
  unfolding update_bucket
  remove_finalizer r = do
    answer ← update_bucket (
        with_finalizers r.object
          (env.remove_finalizer r.object.metadata.finalizers bucket_finalizer))
    pure (updated answer)

  -- `r.patchStatus` with one condition, and the return.
  abbrev pub report : Resolver Bucket → Condition → Finish → M Finish
  report r c finish =
      patch_then
        (patch_bucket_status env name r.object.metadata.generation (set_bucket_condition env c))
        finish

  -- `provider.Bucket().DeleteBucket(ctx, bucket.Bucket)`.
  unfoldable pub call_delete_bucket : Bucket → M (Option Error)
  call_delete_bucket b h =
      let answer = env.delete_bucket h b in (answer, external_bucket_delete b answer ∷ h)

  -- What follows the external deletion.
  unfoldable pub after_delete : Resolver Bucket → Option Error → M Finish
  unfolding remove_finalizer
  after_delete r none = remove_finalizer r
  after_delete r (some e) =
      report r (set_state r.condition condition_false reason_bucket_delete_error (message e))
        (reconcile_error (some e))

  -- The branch of `deleteBucket` for a bucket that the usage policy allows.
  unfoldable pub delete_external : Resolver Bucket → M Finish
  unfolding call_delete_bucket after_delete
  delete_external r = do answer ← call_delete_bucket r.object; after_delete r answer

  -- The branch of `deleteBucket` for a bucket that the usage policy restricts.
  unfoldable pub keep_restricted : Resolver Bucket → M Finish
  unfolding remove_finalizer
  keep_restricted r =
      if bucket_is_provisioned r.object
      then report r (kept_condition r) reconciled
      else remove_finalizer r

  -- The decision of the usage policy in `deleteBucket`; a panic runs the deferred cleanup only.
  unfoldable pub delete_decided : Resolver Bucket → Outcome Decision → M Finish
  unfolding delete_external keep_restricted
  delete_decided r panics = pure panicked
  delete_decided r (returns d) = if d.allowed then delete_external r else keep_restricted r

  -- `deleteBucket` once the provider was prepared.
  unfoldable pub delete_prepared :
      Resolver Bucket → ProviderSetup × Option ProviderSetupIssue → M Finish
  unfolding with_cleanup delete_decided
  delete_prepared r (setup, some issue) =
      with_cleanup env setup.provider (pure (reconcile_error issue.error))
  delete_prepared r (setup, none) =
      with_cleanup env setup.provider
        (delete_decided r (check_bucket env.regexp setup.config.object.spec.usage_policy r.object))

  -- `deleteBucket` once it is known whether the bucket is referenced.
  unfoldable pub delete_unreferenced : Resolver Bucket → Result Bool → M Finish
  unfolding prepare_provider delete_prepared remove_finalizer provider_for_delete
  delete_unreferenced r (err e) = pure (reconcile_error (some e))
  delete_unreferenced r (ok true) = pure (reconcile_after 10)
  delete_unreferenced r (ok false) =
      if bucket_should_be_deleted r.object
      then (do
        prepared ← prepare_provider env (record { name = provider_for_delete r.object })
        delete_prepared r prepared)
      else remove_finalizer r

  -- `deleteBucket`.
  unfoldable pub delete_bucket : Resolver Bucket → M Finish
  unfolding bucket_is_referenced delete_unreferenced
  delete_bucket r =
      if not (env.contains_finalizer r.object.metadata.finalizers bucket_finalizer)
      then pure reconciled
      else do
        referenced ← bucket_is_referenced env r.object.metadata
        delete_unreferenced r referenced
