-- ===== src/Controller/Configs/Reconcile.antt =====
-- `Reconcile`, the finalizer and `deleteProviderConfig` of
-- internal/controller/provider_config_controller.go.
use vedro.Prelude.{String, Bool, true, false, not, none, some, List, ◌∷◌, if◌then◌else◌}
use vedro.Errors.{Result, ok, err, message}
use vedro.Conditions.{
  condition_true, condition_false, reason_provider_config_error,
  reason_provider_config_invalid_spec, reason_provider_config_reconciled,
}
use vedro.Api.Meta.{NamespacedName}
use vedro.Api.Provider.{ProviderConfig}
use vedro.Validation.{ValidationResult}
use vedro.Resolvers.{is_being_deleted}
use vedro.Kube.{Resolver, resolve_config, config_is_referenced}
use vedro.Kube.Events.{M, ◌>>=◌, pure, Provider, config_update, provider_new}
use vedro.Kube.Environment.{Env}
use vedro.Controller.Finish.{
  Finish, reconciled, reconcile_error, reconcile_after, reconcile_ignore_not_found, set_state,
  patch_then, with_cleanup,
}
use vedro.Controller.Configs.Patches.{set_config_condition, patch_config_status}

abbrev pub config_finalizer : String
config_finalizer = "vedro.svetoch.dev/providerconfig-finalizer"

abbrev pub config_with_finalizers : ProviderConfig → List String → ProviderConfig
config_with_finalizers c fs = record c { metadata = record c.metadata { finalizers = fs } }

-- The return after the `Update` that removes the finalizer.
abbrev config_updated : Result ProviderConfig → Finish
config_updated (ok c) = reconciled
config_updated (err e) = reconcile_error (some e)

module _ (env : Env) (name : NamespacedName) where
  -- `r.Update(ctx, &providerConfig.ProviderConfig)`.
  unfoldable pub update_config : ProviderConfig → M (Result ProviderConfig)
  update_config c h = let answer = env.update_config h c in (answer, config_update c answer ∷ h)

  -- The end of `deleteProviderConfig`: the finalizer is removed.
  unfoldable pub remove_config_finalizer : Resolver ProviderConfig → M Finish
  unfolding update_config
  remove_config_finalizer r = do
    answer ← update_config (
        config_with_finalizers r.object
          (env.remove_finalizer r.object.metadata.finalizers config_finalizer))
    pure (config_updated answer)

  -- `deleteProviderConfig` once it is known whether the ProviderConfig is referenced.
  unfoldable pub delete_config_unreferenced : Resolver ProviderConfig → Result Bool → M Finish
  unfolding remove_config_finalizer
  delete_config_unreferenced r (err e) = pure (reconcile_error (some e))
  delete_config_unreferenced r (ok true) = pure (reconcile_after 10)
  delete_config_unreferenced r (ok false) = remove_config_finalizer r

  -- `deleteProviderConfig`.
  unfoldable pub delete_config : Resolver ProviderConfig → M Finish
  unfolding config_is_referenced delete_config_unreferenced
  delete_config r =
      if not (env.contains_finalizer r.object.metadata.finalizers config_finalizer)
      then pure reconciled
      else do
        referenced ← config_is_referenced env r.object.metadata
        delete_config_unreferenced r referenced

  -- `r.patchStatus` with the condition in this state, and the return.
  abbrev pub report_config : Resolver ProviderConfig → String → String → String → Finish → M Finish
  report_config r status reason text finish =
      patch_then
        (patch_config_status env name r.object.metadata.generation
          (set_config_condition env (set_state r.condition status reason text)))
        finish

  -- `ValidateProviderConfigSpec` and what follows it.
  unfoldable pub config_validated : Resolver ProviderConfig → ValidationResult → M Finish
  config_validated r result =
      if not result.valid
      then report_config r condition_false reason_provider_config_invalid_spec result.message
          reconciled
      else report_config r condition_true reason_provider_config_reconciled
          "ProviderConfig Reconciled" reconciled

  -- What follows the call of the factory.
  unfoldable pub config_provider_made : Resolver ProviderConfig → Result Provider → M Finish
  unfolding config_validated with_cleanup
  config_provider_made r (err e) =
      report_config r condition_false reason_provider_config_error (message e)
        (reconcile_error (some e))
  config_provider_made r (ok provider) =
      with_cleanup env (some provider)
        (config_validated r (provider.validate_provider_config_spec r.object))

  -- `providerFactory(ctx, providerConfig.ProviderConfig, r.Client)`.
  unfoldable pub call_factory : ProviderConfig → M (Result Provider)
  call_factory c h = let answer = env.new_provider h c in (answer, provider_new c answer ∷ h)

  -- `Reconcile` once the finalizer is on the ProviderConfig.
  unfoldable pub reconcile_active_config : Resolver ProviderConfig → M Finish
  unfolding call_factory config_provider_made
  reconcile_active_config r = do answer ← call_factory r.object; config_provider_made r answer

  -- What follows the `Update` that adds the finalizer.
  abbrev pub config_finalizer_added : Resolver ProviderConfig → Result ProviderConfig → M Finish
  config_finalizer_added r (err e) = pure (reconcile_error (some e))
  config_finalizer_added r (ok c) = reconcile_active_config (record r { object = c })

  -- `reconcileProviderConfigFinalizer` and the rest of `Reconcile`.
  unfoldable pub reconcile_config_found : Resolver ProviderConfig → M Finish
  unfolding update_config delete_config reconcile_active_config
  reconcile_config_found r =
      if is_being_deleted r.object.metadata
      then delete_config r
      else if not (env.contains_finalizer r.object.metadata.finalizers config_finalizer)
      then (do
        answer ← update_config (
            config_with_finalizers r.object
              (env.add_finalizer r.object.metadata.finalizers config_finalizer))
        config_finalizer_added r answer)
      else reconcile_active_config r

  -- `Reconcile` once the ProviderConfig was resolved.
  unfoldable pub reconcile_config_resolved : Resolver ProviderConfig → M Finish
  unfolding reconcile_config_found
  reconcile_config_resolved r =
      let c = record r.condition { observed_generation = r.object.metadata.generation } in
      elim r.error [
        | some e ↦ pure (reconcile_ignore_not_found (some e))
        | none ↦ reconcile_config_found (record r { condition = c })
      ]

  -- `ProviderConfigReconciler.Reconcile`.
  unfoldable pub reconcile_config : M Finish
  unfolding resolve_config reconcile_config_resolved
  reconcile_config = do r ← resolve_config env name; reconcile_config_resolved r
