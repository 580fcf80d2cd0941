-- ===== src/Controller/Buckets/Failure/Run.antt =====
-- A whole run of `BucketReconciler.Reconcile` in which a call of the cloud fails.
use vedro.Prelude.{◌<◌, refl, Bool, true, false, Option, none, some, ◌∷◌}
use vedro.Errors.{Error, Result, ok, err}
use vedro.Conditions.{Condition}
use vedro.Api.Meta.{NamespacedName, ObjectMeta}
use vedro.Api.Bucket.{Bucket}
use vedro.UsagePolicy.{Decision, Outcome, returns, panics, check_bucket}
use vedro.Kube.{Resolver, resolve_bucket, bucket_is_referenced}
use vedro.Kube.Events.{History, pure, external_bucket_delete}
use vedro.Kube.Environment.{Env, RetriesConflicts}
use vedro.Kube.Quiet.{count, count-cons, Quiet, Quiet-pure}
use vedro.Controller.Finish.{
  Finish, panicked, reconciled, reconcile_error, reconcile_after, reconcile_ignore_not_found,
}
use vedro.Controller.Setup.{ProviderSetup, ProviderSetupIssue}
use vedro.Controller.Setup.Calls.{
  prepare_provider-Quiet, patch_then-Quiet, patch_bucket_status-Quiet,
}
use vedro.Controller.Buckets.Delete.{
  updated, update_bucket, remove_finalizer, report, after_delete, delete_external, keep_restricted,
  kept_condition, delete_decided, delete_prepared, delete_unreferenced, delete_bucket,
}
use vedro.Controller.Buckets.Reconcile.{
  finalizer_added, reconcile_found, reconcile_resolved, reconcile_bucket,
}
use vedro.Controller.Buckets.Failure.{
  Fails, fails, Reports, Reports-Quiet, Reports-if, Reports-bind, Reports-cleanup, patched-Fails,
  fails-patch, fails-setup, reconcile_active-Reports,
}

Reports-pure : (f : Finish) → Reports (pure f)
Reports-pure f = Reports-Quiet _ (Quiet-pure f)

module _ (env : Env) (name : NamespacedName) (retries : RetriesConflicts env) where
  report-Quiet :
      (r : Resolver Bucket) (c : Condition) (finish : Finish)
      → Quiet fails (report env name r c finish)
  report-Quiet r c finish =
      patch_then-Quiet _ finish
        (patch_bucket_status-Quiet env retries (fails-patch env name retries) name _ _)

  update_bucket-Quiet : (b : Bucket) → Quiet fails (update_bucket env name b)
  unfolding update_bucket
  update_bucket-Quiet b = record { at = λ h. count-cons fails _ h refl }

  remove_finalizer-Reports : (r : Resolver Bucket) → Reports (remove_finalizer env name r)
  unfolding remove_finalizer
  remove_finalizer-Reports r =
      Reports-bind (update_bucket env name _) _ (update_bucket-Quiet _)
        (λ a. Reports-pure (updated a))

  deleted-Fails :
      (r : Resolver Bucket) (answer : Option Error) (h : History)
      → let before = external_bucket_delete r.object answer ∷ h in
        count fails h < count fails (after_delete env name r answer before).1
        → Fails (after_delete env name r answer before).0
  unfolding after_delete count
  deleted-Fails r (some e) h more = patched-Fails _ (reconcile_error (some e)) (e, refl)
  deleted-Fails r none h more =
      (remove_finalizer-Reports r).at (external_bucket_delete r.object none ∷ h) more

  delete_external-Reports : (r : Resolver Bucket) → Reports (delete_external env name r)
  unfolding delete_external
  delete_external-Reports r = record {
    at = λ h more. deleted-Fails r (env.delete_bucket h r.object) h more;
  }

  keep_restricted-Reports : (r : Resolver Bucket) → Reports (keep_restricted env name r)
  unfolding keep_restricted
  keep_restricted-Reports r =
      Reports-if _ _ _ (Reports-Quiet _ (report-Quiet r (kept_condition r) reconciled))
        (remove_finalizer-Reports r)

  delete_decided-Reports :
      (r : Resolver Bucket) (d : Outcome Decision) → Reports (delete_decided env name r d)
  unfolding delete_decided
  delete_decided-Reports r panics = Reports-pure panicked
  delete_decided-Reports r (returns d) =
      Reports-if d.allowed _ _ (delete_external-Reports r) (keep_restricted-Reports r)

  delete_prepared-Reports :
      (r : Resolver Bucket) (x : ProviderSetup × Option ProviderSetupIssue)
      → Reports (delete_prepared env name r x)
  unfolding delete_prepared
  delete_prepared-Reports r (setup, some issue) =
      Reports-cleanup env setup.provider _ (Reports-pure (reconcile_error issue.error))
  delete_prepared-Reports r (setup, none) = Reports-cleanup env setup.provider _ (
      delete_decided-Reports r
        (check_bucket env.regexp setup.config.object.spec.usage_policy r.object))

  delete_unreferenced-Reports :
      (r : Resolver Bucket) (answer : Result Bool) → Reports (delete_unreferenced env name r answer)
  unfolding delete_unreferenced
  delete_unreferenced-Reports r (err e) = Reports-pure (reconcile_error (some e))
  delete_unreferenced-Reports r (ok true) = Reports-pure (reconcile_after 10)
  delete_unreferenced-Reports r (ok false) =
      Reports-if _ _ _
        (Reports-bind _ (delete_prepared env name r)
          (prepare_provider-Quiet env (fails-setup env name retries) _) (delete_prepared-Reports r))
        (remove_finalizer-Reports r)

  bucket_is_referenced-Quiet : (m : ObjectMeta) → Quiet fails (bucket_is_referenced env m)
  unfolding bucket_is_referenced
  bucket_is_referenced-Quiet m = record { at = λ h. count-cons fails _ h refl }

  delete_bucket-Reports : (r : Resolver Bucket) → Reports (delete_bucket env name r)
  unfolding delete_bucket
  delete_bucket-Reports r = Reports-if _ _ _ (Reports-pure reconciled) (
      Reports-bind _ (delete_unreferenced env name r) (bucket_is_referenced-Quiet r.object.metadata)
        (delete_unreferenced-Reports r))

  finalizer_added-Reports :
      (r : Resolver Bucket) (answer : Result Bucket) → Reports (finalizer_added env name r answer)
  finalizer_added-Reports r (err e) = Reports-pure (reconcile_error (some e))
  finalizer_added-Reports r (ok b) =
      reconcile_active-Reports env name retries (record r { object = b })

  reconcile_found-Reports : (r : Resolver Bucket) → Reports (reconcile_found env name r)
  unfolding reconcile_found
  reconcile_found-Reports r = Reports-if _ _ _ (delete_bucket-Reports r) (
      Reports-if _ _ _
        (Reports-bind _ (finalizer_added env name r) (update_bucket-Quiet _)
          (finalizer_added-Reports r))
        (reconcile_active-Reports env name retries r))

  resolved-Reports :
      (r : Resolver Bucket) (error : Option Error)
      → Reports (elim error [
        | some e ↦ pure (reconcile_ignore_not_found (some e))
        | none ↦ reconcile_found env name r
      ])
  resolved-Reports r (some e) = Reports-pure (reconcile_ignore_not_found (some e))
  resolved-Reports r none = reconcile_found-Reports r

  reconcile_resolved-Reports : (r : Resolver Bucket) → Reports (reconcile_resolved env name r)
  unfolding reconcile_resolved
  reconcile_resolved-Reports r =
      let c = record r.condition { observed_generation = r.object.metadata.generation } in
      resolved-Reports (record r { condition = c }) r.error

  resolve_bucket-Quiet : Quiet fails (resolve_bucket env name)
  unfolding resolve_bucket
  resolve_bucket-Quiet = record { at = λ h. count-cons fails _ h refl }

  -- When a call of `EnsureBucket` or of `DeleteBucket` that `Reconcile` makes answers with an error,
  -- `Reconcile` returns an error, so that the bucket is reconciled again: whatever else it did.
  pub reconcile_bucket-Fails :
      (h : History)
      → count fails h < count fails (reconcile_bucket env name h).1
      → Fails (reconcile_bucket env name h).0
  unfolding reconcile_bucket
  reconcile_bucket-Fails h more =
      (Reports-bind _ (reconcile_resolved env name) resolve_bucket-Quiet
          reconcile_resolved-Reports).at
        h more
