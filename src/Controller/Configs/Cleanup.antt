-- ===== src/Controller/Configs/Cleanup.antt =====
-- The calls of `Cleanup` in `ProviderConfigReconciler.Reconcile`.
use vedro.Prelude.{◌≡◌, refl, Bool, true, false, not, arith, some, [], ◌∷◌}
use vedro.Errors.{Result, ok, err}
use vedro.Api.Meta.{NamespacedName, ObjectMeta}
use vedro.Api.Provider.{ProviderConfig}
use vedro.Kube.{Resolver, config_is_referenced, resolve_config}
use vedro.Kube.Events.{History, Provider, provider_new, pure, ◌>>=◌}
use vedro.Controller.Finish.{reconciled}
use vedro.Kube.Environment.{Env, RetriesConflicts}
use vedro.Kube.Quiet.{count}
use vedro.Controller.Setup.Calls.{patch_then-Quiet}
use vedro.Controller.Balance.{
  made, cleans, IsBalanced, Balances, Balances-bind, Balances-if, Balances-pure, Balances-Quiet,
  with_cleanup-IsBalanced,
}
use vedro.Controller.Configs.Patches.{IgnoresConfigPatch, patch_config_status-Quiet}
use vedro.Controller.Configs.Reconcile.{
  delete_config_unreferenced, delete_config, config_provider_made, reconcile_active_config,
  config_finalizer_added, reconcile_config_found, reconcile_config_resolved, reconcile_config,
  config_finalizer, update_config, remove_config_finalizer,
}
use vedro.Controller.Configs.Referenced.{config_is_referenced-Quiet}
use vedro.Controller.Configs.Removal.{config_validated-Quiet}

config_made-patch : IgnoresConfigPatch made
config_made-patch = record { config_gets = λ n a. refl; config_patches = λ c a. refl }

config_cleans-patch : IgnoresConfigPatch cleans
config_cleans-patch = record { config_gets = λ n a. refl; config_patches = λ c a. refl }

module _ (env : Env) (name : NamespacedName) (retries : RetriesConflicts env) where
  config_provider_made-IsBalanced :
      (r : Resolver ProviderConfig) (answer : Result Provider) (h : History)
      → IsBalanced h
      → IsBalanced (config_provider_made env name r answer (provider_new r.object answer ∷ h)).1
  unfolding config_provider_made count
  config_provider_made-IsBalanced r (err e) h b =
      let h' = provider_new r.object (err e) ∷ h in
      let m = patch_config_status-Quiet env config_made-patch retries name in
      let k = patch_config_status-Quiet env config_cleans-patch retries name in
      omega (arith, (patch_then-Quiet _ _ (m _ _)).at h', (patch_then-Quiet _ _ (k _ _)).at h')
  config_provider_made-IsBalanced r (ok provider) h b =
      let result = provider.validate_provider_config_spec r.object in
      with_cleanup-IsBalanced env (some provider) _ (provider_new r.object (ok provider) ∷ h)
        (config_validated-Quiet env name retries config_made-patch r result)
        (config_validated-Quiet env name retries config_cleans-patch r result) (omega (arith, b))

  reconcile_active_config-Balances :
      (r : Resolver ProviderConfig) → Balances (reconcile_active_config env name r)
  unfolding reconcile_active_config
  reconcile_active_config-Balances r = record {
    at = λ h b. config_provider_made-IsBalanced r (env.new_provider h r.object) h b;
  }

  update_config-Balances : (c : ProviderConfig) → Balances (update_config env name c)
  unfolding update_config count
  update_config-Balances c = record { at = λ h b. b }

  config_finalizer_added-Balances :
      (r : Resolver ProviderConfig) (answer : Result ProviderConfig)
      → Balances (config_finalizer_added env name r answer)
  config_finalizer_added-Balances r (err e) = Balances-pure _
  config_finalizer_added-Balances r (ok c) =
      reconcile_active_config-Balances (record r { object = c })

  delete_config_unreferenced-Balances :
      (r : Resolver ProviderConfig) (answer : Result Bool)
      → Balances (delete_config_unreferenced env name r answer)
  unfolding delete_config_unreferenced remove_config_finalizer update_config count
  delete_config_unreferenced-Balances r (err e) = Balances-pure _
  delete_config_unreferenced-Balances r (ok true) = Balances-pure _
  delete_config_unreferenced-Balances r (ok false) = record { at = λ h b. b }

  config_is_referenced-Balances : (m : ObjectMeta) → Balances (config_is_referenced env m)
  config_is_referenced-Balances m =
      Balances-Quiet _ (config_is_referenced-Quiet env m (λ a. refl, λ a. refl))
        (config_is_referenced-Quiet env m (λ a. refl, λ a. refl))

  delete_config-Balances : (r : Resolver ProviderConfig) → Balances (delete_config env name r)
  unfolding delete_config
  delete_config-Balances r =
      Balances-if (not (env.contains_finalizer r.object.metadata.finalizers config_finalizer))
        (pure reconciled)
        (config_is_referenced env r.object.metadata >>= delete_config_unreferenced env name r)
        (Balances-pure reconciled)
        (Balances-bind (config_is_referenced env r.object.metadata)
          (delete_config_unreferenced env name r) (config_is_referenced-Balances r.object.metadata)
          (delete_config_unreferenced-Balances r))

  add_finalizer-Balances :
      (r : Resolver ProviderConfig) (c : ProviderConfig)
      → Balances (update_config env name c >>= config_finalizer_added env name r)
  add_finalizer-Balances r c =
      Balances-bind _ (config_finalizer_added env name r) (update_config-Balances c)
        (config_finalizer_added-Balances r)

  reconcile_config_found-Balances :
      (r : Resolver ProviderConfig) → Balances (reconcile_config_found env name r)
  unfolding reconcile_config_found
  reconcile_config_found-Balances r = search (
    Balances-if,
    delete_config-Balances,
    add_finalizer-Balances r,
    reconcile_active_config-Balances,
  )

  abbrev stamped : Resolver ProviderConfig → Resolver ProviderConfig
  stamped r = record r {
    condition = record r.condition { observed_generation = r.object.metadata.generation };
  }

  reconcile_config_resolved-Balances :
      (r : Resolver ProviderConfig) → Balances (reconcile_config_resolved env name r)
  unfolding reconcile_config_resolved
  reconcile_config_resolved-Balances r = record {
    at = λ h b. ground (arith, (reconcile_config_found-Balances (stamped r)).at h b);
  }

  -- However `Reconcile` of a ProviderConfig returns, `Cleanup` was called as often as a provider was
  -- made.
  pub reconcile_config-cleanup :
      count made (reconcile_config env name []).1 ≡ count cleans (reconcile_config env name []).1
  unfolding reconcile_config count
  reconcile_config-cleanup =
      let (r, h) = resolve_config env name [] in (reconcile_config_resolved-Balances r).at h refl
