-- ===== src/Controller/Principals/Delete.antt =====
-- The finalizer and `deleteCloudPrincipal` of internal/controller/cloudprincipal_controller.go.
use vedro.Prelude.{
  String, Bool, true, false, not, ◌==◌, Option, none, some, List, ◌∷◌, if◌then◌else◌,
}
use vedro.Errors.{Error, Result, ok, err, message}
use vedro.Conditions.{
  Condition, condition_false, reason_cloud_principal_delete_error,
  reason_cloud_principal_remove_finalizer_error,
}
use vedro.Api.Meta.{NamespacedName}
use vedro.Api.Principal.{CloudPrincipal}
use vedro.Resolvers.{principal_should_be_deleted, principal_is_provisioned}
use vedro.UsagePolicy.{Decision, Outcome, returns, panics, check_principal}
use vedro.Kube.{Resolver, principal_is_referenced}
use vedro.Kube.Events.{M, ◌>>=◌, pure, principal_update, external_principal_delete}
use vedro.Kube.Environment.{Env}
use vedro.Controller.Finish.{
  Finish, panicked, reconciled, reconcile_error, reconcile_after, set_state, patch_then,
  with_cleanup,
}
use vedro.Controller.Setup.{ProviderSetup, ProviderSetupIssue, prepare_provider}
use vedro.Controller.Principals.Patches.{set_principal_condition, patch_principal_status}

abbrev pub principal_finalizer : String
principal_finalizer = "vedro.svetoch.dev/cloudprincipal-finalizer"

abbrev pub principal_with_finalizers : CloudPrincipal → List String → CloudPrincipal
principal_with_finalizers p fs = record p { metadata = record p.metadata { finalizers = fs } }

-- The return after an `Update`.
abbrev pub principal_updated : Result CloudPrincipal → Finish
principal_updated (ok p) = reconciled
principal_updated (err e) = reconcile_error (some e)

-- The condition of a principal that is kept.
abbrev pub kept_principal_condition : Resolver CloudPrincipal → Condition
kept_principal_condition r =
    set_state r.condition condition_false reason_cloud_principal_remove_finalizer_error
      "Cant remove CloudPrincipal because it was already provisioned and spec is restricted by usagePolicy"

-- The provider that the principal was last reconciled with, or that of the spec.
unfoldable pub principal_provider_for_delete : CloudPrincipal → String
principal_provider_for_delete p =
    if p.status.observed_provider == ""
    then p.spec.provider_ref.name
    else p.status.observed_provider

module _ (env : Env) (name : NamespacedName) where
  -- `r.Update(ctx, &principal.CloudPrincipal)`.
  unfoldable pub update_principal : CloudPrincipal → M (Result CloudPrincipal)
  update_principal p h =
      let answer = env.update_principal h p in (answer, principal_update p answer ∷ h)

  -- The end of `deleteCloudPrincipal`: the finalizer is removed.
  unfoldable pub remove_principal_finalizer : Resolver CloudPrincipal → M Finish
  unfolding update_principal
  remove_principal_finalizer r = do
    answer ← update_principal (
        principal_with_finalizers r.object
          (env.remove_finalizer r.object.metadata.finalizers principal_finalizer))
    pure (principal_updated answer)

  -- `r.patchStatus` with one condition, and the return.
  abbrev pub report_principal : Resolver CloudPrincipal → Condition → Finish → M Finish
  report_principal r c finish =
      patch_then
        (patch_principal_status env name r.object.metadata.generation
          (set_principal_condition env c))
        finish

  -- `provider.Principal().DeletePrincipal(ctx, principal.CloudPrincipal)`.
  unfoldable pub call_delete_principal : CloudPrincipal → M (Option Error)
  call_delete_principal p h =
      let answer = env.delete_principal h p in (answer, external_principal_delete p answer ∷ h)

  -- What follows the external deletion.
  unfoldable pub after_principal_delete : Resolver CloudPrincipal → Option Error → M Finish
  unfolding remove_principal_finalizer
  after_principal_delete r none = remove_principal_finalizer r
  after_principal_delete r (some e) =
      report_principal r
        (set_state r.condition condition_false reason_cloud_principal_delete_error (message e))
        (reconcile_error (some e))

  -- The branch of `deleteCloudPrincipal` for a principal that the usage policy allows.
  unfoldable pub delete_external_principal : Resolver CloudPrincipal → M Finish
  unfolding call_delete_principal after_principal_delete
  delete_external_principal r = do
    answer ← call_delete_principal r.object
    after_principal_delete r answer

  -- The branch of `deleteCloudPrincipal` for a principal that the usage policy restricts.
  unfoldable pub keep_restricted_principal : Resolver CloudPrincipal → M Finish
  unfolding remove_principal_finalizer
  keep_restricted_principal r =
      if principal_is_provisioned r.object
      then report_principal r (kept_principal_condition r) reconciled
      else remove_principal_finalizer r

  -- The decision of the usage policy in `deleteCloudPrincipal`.
  unfoldable pub delete_principal_decided : Resolver CloudPrincipal → Outcome Decision → M Finish
  unfolding delete_external_principal keep_restricted_principal
  delete_principal_decided r panics = pure panicked
  delete_principal_decided r (returns d) =
      if d.allowed then delete_external_principal r else keep_restricted_principal r

  -- `deleteCloudPrincipal` once the provider was prepared.
  unfoldable pub delete_principal_prepared :
      Resolver CloudPrincipal → ProviderSetup × Option ProviderSetupIssue → M Finish
  unfolding with_cleanup delete_principal_decided
  delete_principal_prepared r (setup, some issue) =
      with_cleanup env setup.provider (pure (reconcile_error issue.error))
  delete_principal_prepared r (setup, none) = with_cleanup env setup.provider (
      delete_principal_decided r
        (check_principal env.regexp setup.config.object.spec.usage_policy r.object))

  -- `deleteCloudPrincipal` once it is known whether the principal is referenced.
  unfoldable pub delete_principal_unreferenced : Resolver CloudPrincipal → Result Bool → M Finish
  unfolding prepare_provider delete_principal_prepared remove_principal_finalizer
      principal_provider_for_delete
  delete_principal_unreferenced r (err e) = pure (reconcile_error (some e))
  delete_principal_unreferenced r (ok true) = pure (reconcile_after 10)
  delete_principal_unreferenced r (ok false) =
      if principal_should_be_deleted r.object
      then (do
        prepared ← prepare_provider env (record { name = principal_provider_for_delete r.object })
        delete_principal_prepared r prepared)
      else remove_principal_finalizer r

  -- `deleteCloudPrincipal`.
  unfoldable pub delete_principal : Resolver CloudPrincipal → M Finish
  unfolding principal_is_referenced delete_principal_unreferenced
  delete_principal r =
      if not (env.contains_finalizer r.object.metadata.finalizers principal_finalizer)
      then pure reconciled
      else do
        referenced ← principal_is_referenced env r.object.metadata
        delete_principal_unreferenced r referenced
