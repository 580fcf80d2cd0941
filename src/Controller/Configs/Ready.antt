-- ===== src/Controller/Configs/Ready.antt =====
-- When `ProviderConfigReconciler.Reconcile` reports a ProviderConfig as ready.
use vedro.Prelude.{
  String, ◌<◌, ◌≡◌, refl, sym, ap, ◌∙◌, Bool, true, false, arith, Option, none, some, List, ◌∷◌,
  ◌==◌,
}
use vedro.Errors.{Result, ok, err, message}
use vedro.Conditions.{
  Condition, type_provider_config_ready, condition_true, condition_false,
  reason_provider_config_error, reason_provider_config_invalid_spec,
}
use vedro.Api.Meta.{NamespacedName}
use vedro.Api.Provider.{ProviderConfig}
use vedro.Validation.{ValidationResult}
use vedro.Kube.{Resolver}
use vedro.Kube.Events.{Event, History, Provider, config_patch, provider_new}
use vedro.Kube.Environment.{Env, RetriesConflicts, SetsCondition, find_condition}
use vedro.Kube.Quiet.{count, Quiet}
use vedro.Controller.Finish.{Finish, reconciled, reconcile_error, set_state}
use vedro.Controller.Setup.Calls.{patch_then-Quiet, with_cleanup-count}
use vedro.Controller.Configs.Patches.{set_config_condition, this_config_patch-Quiet}
use vedro.Controller.Configs.Reconcile.{
  report_config, config_validated, config_provider_made, reconcile_active_config,
}

abbrev has_true : Option Condition → Bool
has_true none = false
has_true (some c) = c.status == condition_true

-- A patch to a status whose condition ProviderConfigReady is True.
abbrev pub declares_ready : Event → Bool
declares_ready (config_patch c a) =
    has_true (find_condition type_provider_config_ready c.status.conditions)
declares_ready _ = false

module _ (env : Env) (name : NamespacedName) (retries : RetriesConflicts env)
    (sets : SetsCondition env) (r : Resolver ProviderConfig)
    (own : r.condition.type ≡ type_provider_config_ready) where
  -- A condition that is set to False is found as False.
  set_false :
      (reason text : String) (cs : List Condition)
      → has_true (
          find_condition type_provider_config_ready
            (env.set_status_condition cs (set_state r.condition condition_false reason text)))
        ≡ false
  set_false reason text cs =
      let c = set_state r.condition condition_false reason text in
      let (time, found) = sets.own cs c in
      ap has_true (ap (λ t. find_condition t (env.set_status_condition cs c)) (sym own) ∙ found)

  report_false-Quiet :
      (reason text : String) (finish : Finish)
      → Quiet declares_ready (report_config env name r condition_false reason text finish)
  report_false-Quiet reason text finish = patch_then-Quiet _ finish (
      this_config_patch-Quiet env (λ n a. refl) r.object.metadata.generation
        (set_config_condition env (set_state r.condition condition_false reason text))
        (λ x a. set_false reason text x.status.conditions) retries name)

  config_validated-ready :
      (result : ValidationResult) (h : History)
      → count declares_ready h ≡ 0
      → 0 < count declares_ready (config_validated env name r result h).1
      → result.valid ≡ true
  unfolding config_validated
  config_validated-ready result h z pos = ground (
    arith,
    (report_false-Quiet reason_provider_config_invalid_spec result.message reconciled).at h,
  )

  config_provider_made-ready :
      (answer : Result Provider) (h : History)
      → count declares_ready h ≡ 0
      → 0 < count declares_ready (config_provider_made env name r answer h).1
      → (provider : Provider) × (answer ≡ ok provider)
        × ((provider.validate_provider_config_spec r.object).valid ≡ true)
  unfolding config_provider_made
  config_provider_made-ready (err e) h z pos =
      let failed =
        report_false-Quiet reason_provider_config_error (message e) (reconcile_error (some e)) in
      absurd (omega (arith, failed.at h))
  config_provider_made-ready (ok provider) h z pos =
      let result = provider.validate_provider_config_spec r.object in
      let m = config_validated env name r result in
      let kept = with_cleanup-count env declares_ready (λ a. refl) (some provider) m h in
      (provider, refl, config_validated-ready result h z (omega (arith, kept, pos)))

  -- A ProviderConfig is reported as ready only when a provider was made from it, and the provider
  -- finds its spec valid.
  pub reconcile_active_config-ready :
      (h : History)
      → count declares_ready h ≡ 0
      → 0 < count declares_ready (reconcile_active_config env name r h).1
      → (provider : Provider) × (env.new_provider h r.object ≡ ok provider)
        × ((provider.validate_provider_config_spec r.object).valid ≡ true)
  unfolding reconcile_active_config count
  reconcile_active_config-ready h z pos =
      config_provider_made-ready (env.new_provider h r.object)
        (provider_new r.object (env.new_provider h r.object) ∷ h) z pos
