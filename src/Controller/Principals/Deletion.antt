-- ===== src/Controller/Principals/Deletion.antt =====
-- What `CloudPrincipalReconciler.Reconcile` does to the finalizer, from the first call to the last.
use vedro.Prelude.{◌<◌, ◌≡◌, refl, ◌⊎◌, inl, inr, true, false, arith, none, [], ◌∷◌, Bool-cases}
use vedro.Errors.{Result, ok, err}
use vedro.Api.Meta.{NamespacedName}
use vedro.Api.Principal.{CloudPrincipal}
use vedro.Conditions.{condition_false, type_ready}
use vedro.Resolvers.{is_being_deleted, principal_should_be_deleted, principal_is_provisioned}
use vedro.Kube.{Resolver, new_condition}
use vedro.Kube.Events.{History, principal_get, principal_update}
use vedro.Kube.Environment.{Env, RetriesConflicts, HandlesFinalizers}
use vedro.Kube.Quiet.{count, Quiet}
use vedro.Controller.Principals.Delete.{
  principal_finalizer, principal_with_finalizers, delete_principal,
}
use vedro.Controller.Principals.Apply.{reconcile_active_principal}
use vedro.Controller.Principals.Reconcile.{
  principal_finalizer_added, reconcile_principal_found, reconcile_principal,
}
use vedro.Controller.Principals.Removal.{
  principal_removes, principal_deletes, removes-setup, removes-patch, delete_principal-removed,
}
use vedro.Controller.Principals.Referenced.{Unreferenced}
use vedro.Controller.Principals.Ensure.{reconcile_active_principal-Quiet}

module _ (env : Env) (name : NamespacedName) (retries : RetriesConflicts env)
    (finalizers : HandlesFinalizers env) where
  reconcile_active_principal-removes :
      (r : Resolver CloudPrincipal)
      → Quiet (principal_removes env) (reconcile_active_principal env name r)
  reconcile_active_principal-removes =
      reconcile_active_principal-Quiet env name retries (removes-patch env name retries)
        (λ b a. refl) (removes-setup env name retries) (λ a. refl)

  principal_finalizer_added-removes :
      (r : Resolver CloudPrincipal) (answer : Result CloudPrincipal)
      → Quiet (principal_removes env) (principal_finalizer_added env name r answer)
  principal_finalizer_added-removes r (err e) = record { at = λ h. refl }
  principal_finalizer_added-removes r (ok b) =
      reconcile_active_principal-removes (record r { object = b })

  -- What is known when the finalizer of a principal was removed: the principal was being deleted, no
  -- access referred to it and, if it should be deleted, the external bucket was deleted or none was
  -- provisioned.
  abbrev pub MayRemovePrincipal : CloudPrincipal → History → History → Type 0
  MayRemovePrincipal b start end =
      (is_being_deleted b.metadata ≡ true)
      × Unreferenced env b.metadata start
      × ((principal_should_be_deleted b ≡ false)
          ⊎ ((0 < count principal_deletes end) ⊎ (principal_is_provisioned b ≡ false)))

  -- The same from what `deleteCloudPrincipal` guarantees under the policy Delete.
  delete_principal-MayRemovePrincipal :
      (r : Resolver CloudPrincipal) (h : History)
      → count (principal_removes env) h ≡ 0
      → is_being_deleted r.object.metadata ≡ true
      → 0 < count (principal_removes env) (delete_principal env name r h).1
      → MayRemovePrincipal r.object h (delete_principal env name r h).1
  delete_principal-MayRemovePrincipal r h z deleted pos =
      let (unreferenced, gone) = delete_principal-removed env name retries r h z pos in
      (
        deleted,
        unreferenced,
        elim (Bool-cases (principal_should_be_deleted r.object)) [
          | inl b ↦ inr (gone b)
          | inr b ↦ inl b
        ],
      )

  active-removes :
      (r : Resolver CloudPrincipal) (h : History)
      → count (principal_removes env) h ≡ 0
      → is_being_deleted r.object.metadata ≡ false
      → ¬ (0 < count (principal_removes env) (reconcile_principal_found env name r h).1)
  unfolding reconcile_principal_found count
  active-removes r h z active pos =
      let fs = env.add_finalizer r.object.metadata.finalizers principal_finalizer in
      let b = principal_with_finalizers r.object fs in
      let answer = env.update_principal h b in
      ground (
        arith,
        finalizers.contains-add r.object.metadata.finalizers principal_finalizer,
        (reconcile_active_principal-removes r).at h,
        (principal_finalizer_added-removes r answer).at (principal_update b answer ∷ h),
      )

  -- The resolver of a principal that was found.
  abbrev found : CloudPrincipal → Resolver CloudPrincipal
  found b = record {
    object = b;
    condition = record (new_condition type_ready condition_false) {
      observed_generation = b.metadata.generation;
    };
    error = none;
  }

  reconcile_principal_found-removed :
      (r : Resolver CloudPrincipal) (h : History)
      → count (principal_removes env) h ≡ 0
      → 0 < count (principal_removes env) (reconcile_principal_found env name r h).1
      → MayRemovePrincipal r.object h (reconcile_principal_found env name r h).1
  unfolding reconcile_principal_found count
  reconcile_principal_found-removed r h z pos =
      elim (Bool-cases (is_being_deleted r.object.metadata)) [
        | inl deleted ↦
            let m = delete_principal-MayRemovePrincipal r h z deleted (rw deleted at pos) in
            rw deleted (refl, m.1, m.2)
        | inr active ↦ absurd (active-removes r h z active pos)
      ]

  reconcile_principal-found :
      (b : CloudPrincipal)
      → env.get_principal [] name ≡ ok b
      → reconcile_principal env name []
        ≡ reconcile_principal_found env name (found b) (principal_get name (ok b) ∷ [])
  unfolding reconcile_principal
  reconcile_principal-found b e = ground arith

  -- `Reconcile` removes the finalizer of the principal that it was asked for only when that
  -- principal is being deleted, when the lists of accesses and of authentications were read and
  -- nothing in them refers to it and, under the deletion policy Delete, after an external deletion
  -- that succeeded or when no managed external principal is recorded in the status.
  pub reconcile_principal-removal :
      (b : CloudPrincipal)
      → env.get_principal [] name ≡ ok b
      → 0 < count (principal_removes env) (reconcile_principal env name []).1
      → MayRemovePrincipal b (principal_get name (ok b) ∷ []) (reconcile_principal env name []).1
  unfolding reconcile_principal count
  reconcile_principal-removal b e pos = rw (reconcile_principal-found b e) (
      reconcile_principal_found-removed (found b) _ refl
        (rw (reconcile_principal-found b e) at pos))
