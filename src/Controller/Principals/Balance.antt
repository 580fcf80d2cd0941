-- ===== src/Controller/Principals/Balance.antt =====
-- The calls of `deleteCloudPrincipal` between the making of a provider and its cleanup.
use vedro.Prelude.{◌≡◌, refl, Bool, false, Option, none, some}
use vedro.Errors.{Error, Result}
use vedro.Api.Meta.{NamespacedName}
use vedro.Api.Principal.{CloudPrincipal}
use vedro.UsagePolicy.{Decision, Outcome, returns, panics}
use vedro.Kube.{Resolver}
use vedro.Kube.Events.{Event, principal_update, external_principal_delete}
use vedro.Kube.Environment.{Env, RetriesConflicts}
use vedro.Kube.Quiet.{count-cons, Quiet, Quiet-pure, Quiet-bind, Quiet-if}
use vedro.Controller.Finish.{panicked, reconcile_error}
use vedro.Controller.Setup.Calls.{patch_then-Quiet}
use vedro.Controller.Principals.Patches.{IgnoresPrincipalPatch, patch_principal_status-Quiet}
use vedro.Controller.Balance.{made, cleans}
use vedro.Controller.Principals.Delete.{
  principal_updated, update_principal, remove_principal_finalizer, call_delete_principal,
  after_principal_delete, delete_external_principal, keep_restricted_principal,
  delete_principal_decided,
}

-- The calls between the making of a provider and its cleanup.
pub record IgnoresPrincipalDelete (p : Event → Bool) : Type 0 where
  updates : (b : CloudPrincipal) (a : Result CloudPrincipal) → p (principal_update b a) ≡ false
  external : (b : CloudPrincipal) (a : Option Error) → p (external_principal_delete b a) ≡ false

module _ (env : Env) (name : NamespacedName) (retries : RetriesConflicts env) {p : Event → Bool}
    (patches : IgnoresPrincipalPatch p) (calls : IgnoresPrincipalDelete p) where
  update_principal-Quiet : (b : CloudPrincipal) → Quiet p (update_principal env name b)
  unfolding update_principal
  update_principal-Quiet b = record { at = λ h. count-cons p _ h (calls.updates _ _) }

  pub remove_principal_finalizer-Quiet :
      (r : Resolver CloudPrincipal) → Quiet p (remove_principal_finalizer env name r)
  unfolding remove_principal_finalizer
  remove_principal_finalizer-Quiet r =
      Quiet-bind (update_principal env name _) _ (update_principal-Quiet _)
        (λ a. Quiet-pure (principal_updated a))

  after_principal_delete-Quiet :
      (r : Resolver CloudPrincipal) (answer : Option Error)
      → Quiet p (after_principal_delete env name r answer)
  unfolding after_principal_delete
  after_principal_delete-Quiet r none = remove_principal_finalizer-Quiet r
  after_principal_delete-Quiet r (some e) =
      patch_then-Quiet _ (reconcile_error (some e))
        (patch_principal_status-Quiet env patches retries name _ _)

  delete_external_principal-Quiet :
      (r : Resolver CloudPrincipal) → Quiet p (delete_external_principal env name r)
  unfolding delete_external_principal
  delete_external_principal-Quiet r =
      Quiet-bind (call_delete_principal env name r.object) (after_principal_delete env name r)
        (record { at = λ h. count-cons p _ h (calls.external _ _) })
        (after_principal_delete-Quiet r)

  keep_restricted_principal-Quiet :
      (r : Resolver CloudPrincipal) → Quiet p (keep_restricted_principal env name r)
  unfolding keep_restricted_principal
  keep_restricted_principal-Quiet r = search (
    Quiet-if,
    patch_then-Quiet,
    patch_principal_status-Quiet env patches retries,
    remove_principal_finalizer-Quiet,
  )

  pub delete_principal_decided-Quiet :
      (r : Resolver CloudPrincipal) (d : Outcome Decision)
      → Quiet p (delete_principal_decided env name r d)
  unfolding delete_principal_decided
  delete_principal_decided-Quiet r panics = Quiet-pure panicked
  delete_principal_decided-Quiet r (returns d) =
      search (Quiet-if, delete_external_principal-Quiet, keep_restricted_principal-Quiet)

pub principal_made-patch : IgnoresPrincipalPatch made
principal_made-patch = record { principal_gets = λ n a. refl; principal_patches = λ b a. refl }

pub principal_cleans-patch : IgnoresPrincipalPatch cleans
principal_cleans-patch = record { principal_gets = λ n a. refl; principal_patches = λ b a. refl }

pub principal_made-delete : IgnoresPrincipalDelete made
principal_made-delete = record { updates = λ b a. refl; external = λ b a. refl }

pub principal_cleans-delete : IgnoresPrincipalDelete cleans
principal_cleans-delete = record { updates = λ b a. refl; external = λ b a. refl }
