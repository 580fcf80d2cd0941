-- ===== src/Controller/Principals/Reconcile.antt =====
-- `Reconcile` of internal/controller/cloudprincipal_controller.go, from the fetch to the two branches.
use vedro.Prelude.{not, none, some, if◌then◌else◌}
use vedro.Errors.{Result, ok, err}
use vedro.Api.Meta.{NamespacedName}
use vedro.Api.Principal.{CloudPrincipal}
use vedro.Resolvers.{is_being_deleted}
use vedro.Kube.{Resolver, resolve_principal}
use vedro.Kube.Events.{M, ◌>>=◌, pure}
use vedro.Kube.Environment.{Env}
use vedro.Controller.Finish.{Finish, reconcile_error, reconcile_ignore_not_found}
use vedro.Controller.Principals.Delete.{
  principal_finalizer, principal_with_finalizers, update_principal, delete_principal,
}
use vedro.Controller.Principals.Apply.{reconcile_active_principal}

module _ (env : Env) (name : NamespacedName) where
  -- What follows the `Update` that adds the finalizer.
  abbrev pub principal_finalizer_added : Resolver CloudPrincipal → Result CloudPrincipal → M Finish
  principal_finalizer_added r (err e) = pure (reconcile_error (some e))
  principal_finalizer_added r (ok p) = reconcile_active_principal env name (record r { object = p })

  -- `reconcileCloudPrincipalFinalizer` and the rest of `Reconcile`.
  unfoldable pub reconcile_principal_found : Resolver CloudPrincipal → M Finish
  unfolding update_principal delete_principal reconcile_active_principal
  reconcile_principal_found r =
      if is_being_deleted r.object.metadata
      then delete_principal env name r
      else if not (env.contains_finalizer r.object.metadata.finalizers principal_finalizer)
      then (do
        answer ← update_principal env name (
            principal_with_finalizers r.object
              (env.add_finalizer r.object.metadata.finalizers principal_finalizer))
        principal_finalizer_added r answer)
      else reconcile_active_principal env name r

  -- `Reconcile` once the principal was resolved.
  unfoldable pub reconcile_principal_resolved : Resolver CloudPrincipal → M Finish
  unfolding reconcile_principal_found
  reconcile_principal_resolved r =
      let c = record r.condition { observed_generation = r.object.metadata.generation } in
      elim r.error [
        | some e ↦ pure (reconcile_ignore_not_found (some e))
        | none ↦ reconcile_principal_found (record r { condition = c })
      ]

  -- `CloudPrincipalReconciler.Reconcile`.
  unfoldable pub reconcile_principal : M Finish
  unfolding resolve_principal reconcile_principal_resolved
  reconcile_principal = do r ← resolve_principal env name; reconcile_principal_resolved r
