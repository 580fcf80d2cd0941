-- ===== src/Controller/Accesses/Patches.antt =====
-- Which calls `BucketAccessReconciler.patchStatus` makes, and which not.
use vedro.Prelude.{ℕ, ◌≡◌, Bool, false, Option, none, some}
use vedro.Errors.{Error, Result, ok, err}
use vedro.Api.Meta.{NamespacedName}
use vedro.Api.Access.{BucketAccess, BucketAccessStatus}
use vedro.Kube.Events.{Event, access_get, access_patch}
use vedro.Kube.Environment.{Env, RetriesConflicts}
use vedro.Kube.Quiet.{count-cons, Quiet, Quiet-bind, Quiet-pure, Quiet-retry}
use vedro.Controller.Patch.{
  fetch_access, patch_unless_access, patch_found_access, patch_access_once, patch_access_status,
}

-- Events of the sort `p` are none of those of a patch of an access's status.
pub record IgnoresAccessPatch (p : Event → Bool) : Type 0 where
  pub access_gets : (n : NamespacedName) (a : Result BucketAccess) → p (access_get n a) ≡ false
  pub access_patches : (b : BucketAccess) (a : Option Error) → p (access_patch b a) ≡ false

module _ (env : Env) {p : Event → Bool} (ignores : IgnoresAccessPatch p) where
  patch_unless_access-Quiet :
      {A : Type 0} (d : Dec A) (a : BucketAccess) → Quiet p (patch_unless_access env d a)
  unfolding patch_unless_access
  patch_unless_access-Quiet (yes same) a = Quiet-pure none
  patch_unless_access-Quiet (no changed) a = record {
    at = λ h. count-cons p _ h (ignores.access_patches _ _);
  }

  patch_found_access-Quiet :
      (gen : ℕ) (mutate : BucketAccessStatus → BucketAccessStatus) (answer : Result BucketAccess)
      → Quiet p (patch_found_access env gen mutate answer)
  unfolding patch_found_access
  patch_found_access-Quiet gen mutate (err e) = Quiet-pure (some e)
  patch_found_access-Quiet gen mutate (ok a) = patch_unless_access-Quiet _ _

  fetch_access-Quiet : (name : NamespacedName) → Quiet p (fetch_access env name)
  unfolding fetch_access
  fetch_access-Quiet name = record { at = λ h. count-cons p _ h (ignores.access_gets _ _) }

  patch_access_once-Quiet :
      (name : NamespacedName) (gen : ℕ) (mutate : BucketAccessStatus → BucketAccessStatus)
      → Quiet p (patch_access_once env name gen mutate)
  unfolding patch_access_once
  patch_access_once-Quiet name gen mutate =
      Quiet-bind (fetch_access env name) (patch_found_access env gen mutate)
        (fetch_access-Quiet name) (patch_found_access-Quiet gen mutate)

  pub patch_access_status-Quiet :
      RetriesConflicts env
      → (name : NamespacedName) (gen : ℕ) (mutate : BucketAccessStatus → BucketAccessStatus)
      → Quiet p (patch_access_status env name gen mutate)
  unfolding patch_access_status
  patch_access_status-Quiet retries name gen mutate =
      Quiet-retry (patch_access_once env name gen mutate) (patch_access_once-Quiet name gen mutate)
        env retries
