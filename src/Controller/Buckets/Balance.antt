-- ===== src/Controller/Buckets/Balance.antt =====
-- The calls of `deleteBucket` between the making of a provider and its cleanup.
use vedro.Prelude.{◌≡◌, refl, Bool, false, Option, none, some}
use vedro.Errors.{Error, Result}
use vedro.Api.Meta.{NamespacedName}
use vedro.Api.Bucket.{Bucket}
use vedro.UsagePolicy.{Decision, Outcome, returns, panics}
use vedro.Kube.{Resolver}
use vedro.Kube.Events.{Event, bucket_update, external_bucket_delete}
use vedro.Kube.Environment.{Env, RetriesConflicts}
use vedro.Kube.Quiet.{count-cons, Quiet, Quiet-pure, Quiet-bind, Quiet-if}
use vedro.Controller.Finish.{panicked, reconcile_error}
use vedro.Controller.Setup.Calls.{IgnoresPatch, patch_then-Quiet, patch_bucket_status-Quiet}
use vedro.Controller.Balance.{made, cleans}
use vedro.Controller.Buckets.Delete.{
  updated, update_bucket, remove_finalizer, call_delete_bucket, after_delete, delete_external,
  keep_restricted, delete_decided,
}

-- The calls between the making of a provider and its cleanup.
pub record IgnoresDelete (p : Event → Bool) : Type 0 where
  updates : (b : Bucket) (a : Result Bucket) → p (bucket_update b a) ≡ false
  external : (b : Bucket) (a : Option Error) → p (external_bucket_delete b a) ≡ false

module _ (env : Env) (name : NamespacedName) (retries : RetriesConflicts env) {p : Event → Bool}
    (patches : IgnoresPatch p) (calls : IgnoresDelete p) where
  update_bucket-Quiet : (b : Bucket) → Quiet p (update_bucket env name b)
  unfolding update_bucket
  update_bucket-Quiet b = record { at = λ h. count-cons p _ h (calls.updates _ _) }

  pub remove_finalizer-Quiet : (r : Resolver Bucket) → Quiet p (remove_finalizer env name r)
  unfolding remove_finalizer
  remove_finalizer-Quiet r =
      Quiet-bind (update_bucket env name _) _ (update_bucket-Quiet _) (λ a. Quiet-pure (updated a))

  after_delete-Quiet :
      (r : Resolver Bucket) (answer : Option Error) → Quiet p (after_delete env name r answer)
  unfolding after_delete
  after_delete-Quiet r none = remove_finalizer-Quiet r
  after_delete-Quiet r (some e) =
      patch_then-Quiet _ (reconcile_error (some e))
        (patch_bucket_status-Quiet env retries patches name _ _)

  delete_external-Quiet : (r : Resolver Bucket) → Quiet p (delete_external env name r)
  unfolding delete_external
  delete_external-Quiet r =
      Quiet-bind (call_delete_bucket env name r.object) (after_delete env name r)
        (record { at = λ h. count-cons p _ h (calls.external _ _) }) (after_delete-Quiet r)

  keep_restricted-Quiet : (r : Resolver Bucket) → Quiet p (keep_restricted env name r)
  unfolding keep_restricted
  keep_restricted-Quiet r = search (
    Quiet-if,
    patch_then-Quiet,
    patch_bucket_status-Quiet env retries patches,
    remove_finalizer-Quiet,
  )

  pub delete_decided-Quiet :
      (r : Resolver Bucket) (d : Outcome Decision) → Quiet p (delete_decided env name r d)
  unfolding delete_decided
  delete_decided-Quiet r panics = Quiet-pure panicked
  delete_decided-Quiet r (returns d) =
      search (Quiet-if, delete_external-Quiet, keep_restricted-Quiet)

pub made-patch : IgnoresPatch made
made-patch = record { bucket_gets = λ n a. refl; bucket_patches = λ b a. refl }

pub cleans-patch : IgnoresPatch cleans
cleans-patch = record { bucket_gets = λ n a. refl; bucket_patches = λ b a. refl }

pub made-delete : IgnoresDelete made
made-delete = record { updates = λ b a. refl; external = λ b a. refl }

pub cleans-delete : IgnoresDelete cleans
cleans-delete = record { updates = λ b a. refl; external = λ b a. refl }
