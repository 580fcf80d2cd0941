-- ===== src/Controller/Buckets/Reconcile.antt =====
-- `Reconcile` of internal/controller/bucket_controller.go, from the fetch to the two branches.
use vedro.Prelude.{not, none, some, if◌then◌else◌}
use vedro.Errors.{Result, ok, err}
use vedro.Api.Meta.{NamespacedName}
use vedro.Api.Bucket.{Bucket}
use vedro.Resolvers.{is_being_deleted}
use vedro.Kube.{Resolver, resolve_bucket}
use vedro.Kube.Events.{M, ◌>>=◌, pure}
use vedro.Kube.Environment.{Env}
use vedro.Controller.Finish.{Finish, reconcile_error, reconcile_ignore_not_found}
use vedro.Controller.Buckets.Delete.{
  bucket_finalizer, with_finalizers, update_bucket, delete_bucket,
}
use vedro.Controller.Buckets.Apply.{reconcile_active}

module _ (env : Env) (name : NamespacedName) where
  -- What follows the `Update` that adds the finalizer.
  abbrev pub finalizer_added : Resolver Bucket → Result Bucket → M Finish
  finalizer_added r (err e) = pure (reconcile_error (some e))
  finalizer_added r (ok b) = reconcile_active env name (record r { object = b })

  -- `reconcileBucketFinalizer` and the rest of `Reconcile`.
  unfoldable pub reconcile_found : Resolver Bucket → M Finish
  unfolding update_bucket delete_bucket reconcile_active
  reconcile_found r =
      if is_being_deleted r.object.metadata
      then delete_bucket env name r
      else if not (env.contains_finalizer r.object.metadata.finalizers bucket_finalizer)
      then (do
        answer ← update_bucket env name (
            with_finalizers r.object
              (env.add_finalizer r.object.metadata.finalizers bucket_finalizer))
        finalizer_added r answer)
      else reconcile_active env name r

  -- `Reconcile` once the bucket was resolved.
  unfoldable pub reconcile_resolved : Resolver Bucket → M Finish
  unfolding reconcile_found
  reconcile_resolved r =
      let c = record r.condition { observed_generation = r.object.metadata.generation } in
      elim r.error [
        | some e ↦ pure (reconcile_ignore_not_found (some e))
        | none ↦ reconcile_found (record r { condition = c })
      ]

  -- `BucketReconciler.Reconcile`.
  unfoldable pub reconcile_bucket : M Finish
  unfolding resolve_bucket reconcile_resolved
  reconcile_bucket = do r ← resolve_bucket env name; reconcile_resolved r
