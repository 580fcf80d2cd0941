-- ===== src/Controller/Accesses/Reconcile.antt =====
-- `Reconcile` of internal/controller/bucket_access_controller.go: the bucket and the principal that
-- the access refers to.
use vedro.Prelude.{String, not, ◌==◌, ◌||◌, Option, none, some, ◌∷◌, if◌then◌else◌}
use vedro.Errors.{Error, Result, ok, err, is_not_found}
use vedro.Conditions.{
  Condition, condition_true, condition_false, reason_bucket_ready, reason_cloud_principal_ready,
  reason_bucket_access_dependency_not_ready, reason_bucket_access_provider_config_miss_match,
}
use vedro.Api.Meta.{NamespacedName}
use vedro.Api.Bucket.{Bucket}
use vedro.Api.Access.{BucketAccess, BucketAccessStatus}
use vedro.Api.Principal.{CloudPrincipal}
use vedro.Resolvers.{is_being_deleted}
use vedro.Kube.{Resolver, resolve_access}
use vedro.Kube.Events.{M, ◌>>=◌, pure, access_delete}
use vedro.Kube.Environment.{Env}
use vedro.Controller.Finish.{
  Finish, reconciled, reconcile_error, reconcile_ignore_not_found, copy_condition_state, set_state,
  patch_then,
}
use vedro.Controller.Setup.{
  SetupStatus, dependency_ok, dependency_being_deleted, dependency_not_ok, dependency_not_ready,
  prepare_bucket, prepare_cloud_principal,
}
use vedro.Controller.Patch.{set_access_condition, patch_access_status}
use vedro.Controller.Accesses.Delete.{
  access_finalizer, access_with_finalizers, update_access, delete_access,
}
use vedro.Controller.Accesses.Apply.{reconcile_bucket_access}

-- A resolver whose condition has another state.
abbrev pub in_state : {A : Type 0} → Resolver A → Condition → Resolver A
in_state r c = record r { condition = c }

-- The condition of a dependency is stamped with the access's generation.
abbrev pub stamped_by : {A : Type 0} → Resolver BucketAccess → Resolver A → Resolver A
stamped_by r d = record d {
  condition = record d.condition { observed_generation = r.object.metadata.generation };
}

-- A dependency is not ready.
abbrev pub waits : Resolver BucketAccess → String → Resolver BucketAccess
waits r text =
    in_state r
      (set_state r.condition condition_false reason_bucket_access_dependency_not_ready text)

-- The return after `Delete`.
abbrev pub self_deleted : Option Error → Finish
self_deleted none = reconciled
self_deleted (some e) = if not (is_not_found e) then reconcile_error (some e) else reconciled

module _ (env : Env) (name : NamespacedName) where
  -- `r.Delete(ctx, &bucketAccess.BucketAccess)`.
  unfoldable pub delete_self : Resolver BucketAccess → M Finish
  delete_self r h =
      let answer = env.delete_access h r.object in
      (self_deleted answer, access_delete r.object answer ∷ h)

  -- `r.patchStatus` with conditions only, and the return.
  abbrev pub report_with :
      Resolver BucketAccess → (BucketAccessStatus → BucketAccessStatus) → Finish → M Finish
  report_with r mutate finish =
      patch_then (patch_access_status env name r.object.metadata.generation mutate) finish

  -- The conditions of the access, then of the principal, then of the bucket.
  abbrev pub three_conditions :
      Condition → Condition → Condition → BucketAccessStatus → BucketAccessStatus
  three_conditions access principal bucket s =
      set_access_condition env bucket
        (set_access_condition env principal (set_access_condition env access s))

  -- Once the states of the bucket and of the principal are known.
  unfoldable pub dependencies_judged :
      Resolver BucketAccess → Resolver Bucket → Resolver CloudPrincipal → M Finish
  unfolding reconcile_bucket_access
  dependencies_judged r b p =
      if not (p.condition.status == condition_true) || not (b.condition.status == condition_true)
      then report_with r (three_conditions r.condition p.condition b.condition) reconciled
      else if not (p.object.spec.provider_ref.name == b.object.spec.provider_ref.name)
      then report_with r
          (three_conditions
            (set_state r.condition condition_false reason_bucket_access_provider_config_miss_match
              "CloudPrincipal and Bucket reference different ProviderConfig")
            p.condition b.condition)
          reconciled
      else reconcile_bucket_access env name r b p

  -- The `switch` on the state of the principal.
  unfoldable pub principal_prepared :
      Resolver BucketAccess → Resolver Bucket → Resolver CloudPrincipal → SetupStatus → M Finish
  unfolding delete_self dependencies_judged
  principal_prepared r b p dependency_being_deleted = delete_self r
  principal_prepared r b p dependency_not_ok =
      report_with r
        (three_conditions (copy_condition_state r.condition p.condition) p.condition b.condition)
        (reconcile_ignore_not_found p.error)
  principal_prepared r b p dependency_not_ready =
      dependencies_judged (waits r "CloudPrincipal is not Ready") b p
  principal_prepared r b p dependency_ok = dependencies_judged r b (
      in_state p
        (set_state p.condition condition_true reason_cloud_principal_ready "CloudPrincipal Ready"))

  -- `prepareCloudPrincipal` and what follows it.
  unfoldable pub with_bucket : Resolver BucketAccess → Resolver Bucket → M Finish
  unfolding prepare_cloud_principal principal_prepared
  with_bucket r b = do
    prepared ← prepare_cloud_principal env r.object.spec.principal_ref
    principal_prepared r b (stamped_by r prepared.0) prepared.1

  -- The `switch` on the state of the bucket.
  unfoldable pub bucket_prepared : Resolver BucketAccess → Resolver Bucket → SetupStatus → M Finish
  unfolding delete_self with_bucket
  bucket_prepared r b dependency_being_deleted = delete_self r
  bucket_prepared r b dependency_not_ok =
      report_with r
        (λ s.
          set_access_condition env b.condition
            (set_access_condition env (copy_condition_state r.condition b.condition) s))
        (reconcile_ignore_not_found b.error)
  bucket_prepared r b dependency_not_ready = with_bucket (waits r "Bucket is not Ready") b
  bucket_prepared r b dependency_ok =
      with_bucket r
        (in_state b (set_state b.condition condition_true reason_bucket_ready "Bucket Ready"))

  -- `Reconcile` once the finalizer is on the access.
  unfoldable pub reconcile_active_access : Resolver BucketAccess → M Finish
  unfolding prepare_bucket bucket_prepared
  reconcile_active_access r = do
    prepared ← prepare_bucket env r.object.spec.bucket_ref
    bucket_prepared r (stamped_by r prepared.0) prepared.1

  -- What follows the `Update` that adds the finalizer to the access.
  abbrev pub access_finalizer_added : Resolver BucketAccess → Result BucketAccess → M Finish
  unfolding reconcile_active_access
  access_finalizer_added r (err e) = pure (reconcile_error (some e))
  access_finalizer_added r (ok a) = reconcile_active_access (record r { object = a })

  -- `reconcileBucketAccessFinalizer` and the rest of `Reconcile`.
  unfoldable pub reconcile_found_access : Resolver BucketAccess → M Finish
  unfolding update_access delete_access reconcile_active_access
  reconcile_found_access r =
      if is_being_deleted r.object.metadata
      then delete_access env name r
      else if not (env.contains_finalizer r.object.metadata.finalizers access_finalizer)
      then (do
        answer ← update_access env name (
            access_with_finalizers r.object
              (env.add_finalizer r.object.metadata.finalizers access_finalizer))
        access_finalizer_added r answer)
      else reconcile_active_access r

  -- `Reconcile` once the access was resolved.
  unfoldable pub reconcile_resolved_access : Resolver BucketAccess → M Finish
  unfolding reconcile_found_access
  reconcile_resolved_access r = elim r.error [
    | some e ↦ pure (reconcile_ignore_not_found (some e))
    | none ↦ reconcile_found_access (stamped_by r r)
  ]

  -- `BucketAccessReconciler.Reconcile`.
  unfoldable pub reconcile_access : M Finish
  unfolding resolve_access reconcile_resolved_access
  reconcile_access = do r ← resolve_access env name; reconcile_resolved_access r
