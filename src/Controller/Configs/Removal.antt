-- ===== src/Controller/Configs/Removal.antt =====
-- When `ProviderConfigReconciler.Reconcile` removes the finalizer of a ProviderConfig.
use vedro.Prelude.{
  ◌<◌, ◌≡◌, refl, ◌∙◌, Bool, true, false, not, Bool-cases, inl, inr, arith, Option, none, some, [],
  ◌∷◌,
}
use vedro.Errors.{Result, ok, err}
use vedro.Conditions.{type_provider_config_ready}
use vedro.Api.Meta.{NamespacedName}
use vedro.Api.Provider.{ProviderConfig}
use vedro.Resolvers.{is_being_deleted}
use vedro.Kube.{Resolver, config_is_referenced, new_condition}
use vedro.Kube.Events.{Event, History, config_get, config_update, provider_new}
use vedro.Kube.Environment.{Env, RetriesConflicts, HandlesFinalizers}
use vedro.Kube.Quiet.{count, count-cons, Quiet, Quiet-bind, Quiet-if}
use vedro.Controller.Configs.Referenced.{
  UnreferencedConfig, config_is_referenced-Unreferenced, config_is_referenced-Quiet,
}
use vedro.Controller.Setup.Calls.{patch_then-Quiet, with_cleanup-Quiet}
use vedro.Controller.Configs.Patches.{IgnoresConfigPatch, patch_config_status-Quiet}
use vedro.Validation.{ValidationResult}
use vedro.Kube.Events.{Provider, provider_cleanup}
use vedro.Errors.{Error}
use vedro.Controller.Configs.Reconcile.{
  config_finalizer, config_with_finalizers, delete_config_unreferenced, delete_config,
  config_validated, config_provider_made, call_factory, reconcile_active_config,
  config_finalizer_added, reconcile_config_found, reconcile_config,
}

-- An update that leaves the ProviderConfig without the finalizer.
abbrev pub config_removes : Env → Event → Bool
config_removes env (config_update c a) =
    not (env.contains_finalizer c.metadata.finalizers config_finalizer)
config_removes env _ = false

module _ (env : Env) (name : NamespacedName) (retries : RetriesConflicts env) {p : Event → Bool}
    (patches : IgnoresConfigPatch p) where
  pub config_validated-Quiet :
      (r : Resolver ProviderConfig) (result : ValidationResult)
      → Quiet p (config_validated env name r result)
  unfolding config_validated
  config_validated-Quiet r result =
      search (Quiet-if, patch_then-Quiet, patch_config_status-Quiet env patches retries)

  module _ (cleanups : (a : Option Error) → p (provider_cleanup a) ≡ false)
      (news : (c : ProviderConfig) (a : Result Provider) → p (provider_new c a) ≡ false) where
    config_provider_made-Quiet :
        (r : Resolver ProviderConfig) (answer : Result Provider)
        → Quiet p (config_provider_made env name r answer)
    unfolding config_provider_made
    config_provider_made-Quiet r (err e) =
        patch_then-Quiet _ _ (patch_config_status-Quiet env patches retries name _ _)
    config_provider_made-Quiet r (ok provider) =
        with_cleanup-Quiet env cleanups (some provider) _ (config_validated-Quiet r _)

    pub reconcile_active_config-Quiet :
        (r : Resolver ProviderConfig) → Quiet p (reconcile_active_config env name r)
    unfolding reconcile_active_config call_factory
    reconcile_active_config-Quiet r =
        Quiet-bind (call_factory env name r.object) (config_provider_made env name r)
          (record { at = λ h. count-cons _ _ h (news _ _) }) (config_provider_made-Quiet r)

module _ (env : Env) (name : NamespacedName) (retries : RetriesConflicts env)
    (finalizers : HandlesFinalizers env) where
  reconcile_active_config-removes :
      (r : Resolver ProviderConfig)
      → Quiet (config_removes env) (reconcile_active_config env name r)
  reconcile_active_config-removes =
      reconcile_active_config-Quiet env name retries
        (record { config_gets = λ n a. refl; config_patches = λ c a. refl }) (λ a. refl)
        (λ c a. refl)

  config_finalizer_added-removes :
      (r : Resolver ProviderConfig) (answer : Result ProviderConfig)
      → Quiet (config_removes env) (config_finalizer_added env name r answer)
  config_finalizer_added-removes r (err e) = record { at = λ h. refl }
  config_finalizer_added-removes r (ok c) =
      reconcile_active_config-removes (record r { object = c })

  active-removes :
      (r : Resolver ProviderConfig) (h : History)
      → count (config_removes env) h ≡ 0
      → is_being_deleted r.object.metadata ≡ false
      → ¬ (0 < count (config_removes env) (reconcile_config_found env name r h).1)
  unfolding reconcile_config_found count
  active-removes r h z active pos =
      let fs = env.add_finalizer r.object.metadata.finalizers config_finalizer in
      let c = config_with_finalizers r.object fs in
      let answer = env.update_config h c in
      ground (
        arith,
        finalizers.contains-add r.object.metadata.finalizers config_finalizer,
        (reconcile_active_config-removes r).at h,
        (config_finalizer_added-removes r answer).at (config_update c answer ∷ h),
      )

  delete_config_unreferenced-removed :
      (r : Resolver ProviderConfig) (answer : Result Bool) (h : History)
      → count (config_removes env) h ≡ 0
      → 0 < count (config_removes env) (delete_config_unreferenced env name r answer h).1
      → answer ≡ ok false
  unfolding delete_config_unreferenced
  delete_config_unreferenced-removed r (err e) h z pos = absurd (omega arith)
  delete_config_unreferenced-removed r (ok true) h z pos = absurd (omega arith)
  delete_config_unreferenced-removed r (ok false) h z pos = refl

  delete_config-removed :
      (r : Resolver ProviderConfig) (h : History)
      → count (config_removes env) h ≡ 0
      → 0 < count (config_removes env) (delete_config env name r h).1
      → UnreferencedConfig env r.object.metadata h
  unfolding delete_config
  delete_config-removed r h z pos =
      let has : env.contains_finalizer r.object.metadata.finalizers config_finalizer ≡ true =
        ground arith in
      let asked = config_is_referenced env r.object.metadata h in
      let q =
        config_is_referenced-Quiet env r.object.metadata {p = config_removes env}
          (λ a. refl, λ a. refl) in
      config_is_referenced-Unreferenced env r.object.metadata h
        (delete_config_unreferenced-removed r asked.0 asked.1 (q.at h ∙ z) (rw has at pos))

  -- The resolver of a ProviderConfig that was found; its condition has no status yet.
  abbrev found : ProviderConfig → Resolver ProviderConfig
  found c = record {
    object = c;
    condition = record (new_condition type_provider_config_ready "") {
      observed_generation = c.metadata.generation;
    };
    error = none;
  }

  found-removed :
      (r : Resolver ProviderConfig) (h : History)
      → count (config_removes env) h ≡ 0
      → 0 < count (config_removes env) (reconcile_config_found env name r h).1
      → (is_being_deleted r.object.metadata ≡ true) × UnreferencedConfig env r.object.metadata h
  unfolding reconcile_config_found count
  found-removed r h z pos = elim (Bool-cases (is_being_deleted r.object.metadata)) [
    | inl deleted ↦ (deleted, delete_config-removed r h z (rw deleted at pos))
    | inr active ↦ absurd (active-removes r h z active pos)
  ]

  reconcile_config-found :
      (c : ProviderConfig)
      → env.get_config [] name ≡ ok c
      → reconcile_config env name []
        ≡ reconcile_config_found env name (found c) (config_get name (ok c) ∷ [])
  unfolding reconcile_config
  reconcile_config-found c e = ground arith

  -- `Reconcile` removes the finalizer of the ProviderConfig that it was asked for only when it is
  -- being deleted, and when the lists of buckets and of principals were read and nothing in them
  -- refers to it.
  pub reconcile_config-removal :
      (c : ProviderConfig)
      → env.get_config [] name ≡ ok c
      → 0 < count (config_removes env) (reconcile_config env name []).1
      → (is_being_deleted c.metadata ≡ true)
        × UnreferencedConfig env c.metadata (config_get name (ok c) ∷ [])
  unfolding reconcile_config count
  reconcile_config-removal c e pos =
      found-removed (found c) _ refl (rw (reconcile_config-found c e) at pos)
