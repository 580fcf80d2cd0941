-- ===== src/Controller/Configs/Patches.antt =====
-- `ProviderConfigReconciler.patchStatus` of internal/controller/provider_config_controller.go, and
-- which calls it makes. Its argument writes the status only, so it is a function of the status.
use vedro.Prelude.{ℕ, Bool, false, ◌≡◌, Option, none, some, ◌∷◌}
use vedro.Errors.{Error, Result, ok, err}
use vedro.Conditions.{Condition}
use vedro.Api.Meta.{NamespacedName}
use vedro.Api.Provider.{ProviderConfig, ProviderConfigStatus, ProviderConfigStatus-discrete}
use vedro.Kube.Events.{Event, M, ◌>>=◌, pure, config_get, config_patch}
use vedro.Kube.Environment.{Env, RetriesConflicts}
use vedro.Kube.Quiet.{count-cons, Quiet, Quiet-bind, Quiet-pure, Quiet-retry}

module _ (env : Env) where
  -- `meta.SetStatusCondition(&p.Status.Conditions, c)`.
  abbrev pub set_config_condition : Condition → ProviderConfigStatus → ProviderConfigStatus
  set_config_condition c s = record s { conditions = env.set_status_condition s.conditions c }

  -- `r.Status().Patch`.
  unfoldable pub patch_config : ProviderConfig → M (Option Error)
  patch_config p h = let answer = env.patch_config h p in (answer, config_patch p answer ∷ h)

  -- The config with the status that is wanted.
  abbrev pub wanted_config :
      ℕ → (ProviderConfigStatus → ProviderConfigStatus) → ProviderConfig → ProviderConfig
  wanted_config gen mutate p = record p {
    status = mutate (record p.status { observed_generation = gen });
  }

  -- The patch is made unless the status is what it was.
  unfoldable pub patch_unless_config : {A : Type 0} → Dec A → ProviderConfig → M (Option Error)
  unfolding patch_config
  patch_unless_config (yes same) wanted = pure none
  patch_unless_config (no changed) wanted = patch_config wanted

  -- What follows the `Get` in a run of `patchStatus`.
  unfoldable pub patch_found_config :
      ℕ → (ProviderConfigStatus → ProviderConfigStatus) → Result ProviderConfig → M (Option Error)
  unfolding patch_unless_config
  patch_found_config gen mutate (err e) = pure (some e)
  patch_found_config gen mutate (ok p) =
      let wanted = wanted_config gen mutate p in
      patch_unless_config (ProviderConfigStatus-discrete p.status wanted.status) wanted

  unfoldable pub fetch_config : NamespacedName → M (Result ProviderConfig)
  fetch_config name h = let answer = env.get_config h name in (answer, config_get name answer ∷ h)

  -- One run of the function that `patchStatus` retries.
  unfoldable pub patch_config_once :
      NamespacedName → ℕ → (ProviderConfigStatus → ProviderConfigStatus) → M (Option Error)
  unfolding fetch_config patch_found_config
  patch_config_once name gen mutate = do
    answer ← fetch_config name
    patch_found_config gen mutate answer

  -- `ProviderConfigReconciler.patchStatus`.
  unfoldable pub patch_config_status :
      NamespacedName → ℕ → (ProviderConfigStatus → ProviderConfigStatus) → M (Option Error)
  patch_config_status name gen mutate = env.retry_on_conflict (patch_config_once name gen mutate)

-- Events of the sort `p` are none of those of a patch of a config's status.
pub record IgnoresConfigPatch (p : Event → Bool) : Type 0 where
  pub config_gets : (n : NamespacedName) (a : Result ProviderConfig) → p (config_get n a) ≡ false
  pub config_patches : (x : ProviderConfig) (a : Option Error) → p (config_patch x a) ≡ false

module _ (env : Env) {p : Event → Bool}
    (gets : (n : NamespacedName) (a : Result ProviderConfig) → p (config_get n a) ≡ false) (gen : ℕ)
    (mutate : ProviderConfigStatus → ProviderConfigStatus)
    (patches : (x : ProviderConfig) (a : Option Error)
      → p (config_patch (wanted_config env gen mutate x) a) ≡ false) where
  patch_unless_config-Quiet :
      {A : Type 0} (d : Dec A) (x : ProviderConfig)
      → Quiet p (patch_unless_config env d (wanted_config env gen mutate x))
  unfolding patch_unless_config
  patch_unless_config-Quiet (yes same) x = Quiet-pure none
  patch_unless_config-Quiet (no changed) x = record { at = λ h. count-cons p _ h (patches x _) }

  patch_found_config-Quiet :
      (answer : Result ProviderConfig) → Quiet p (patch_found_config env gen mutate answer)
  unfolding patch_found_config
  patch_found_config-Quiet (err e) = Quiet-pure (some e)
  patch_found_config-Quiet (ok x) = patch_unless_config-Quiet _ x

  fetch_config-Quiet : (name : NamespacedName) → Quiet p (fetch_config env name)
  unfolding fetch_config
  fetch_config-Quiet name = record { at = λ h. count-cons p _ h (gets _ _) }

  patch_config_once-Quiet :
      (name : NamespacedName) → Quiet p (patch_config_once env name gen mutate)
  unfolding patch_config_once
  patch_config_once-Quiet name =
      Quiet-bind (fetch_config env name) (patch_found_config env gen mutate)
        (fetch_config-Quiet name) patch_found_config-Quiet

  -- The events are none of those of this one patch.
  pub this_config_patch-Quiet :
      RetriesConflicts env
      → (name : NamespacedName) → Quiet p (patch_config_status env name gen mutate)
  unfolding patch_config_status
  this_config_patch-Quiet retries name =
      Quiet-retry (patch_config_once env name gen mutate) (patch_config_once-Quiet name) env retries

pub patch_config_status-Quiet :
    (env : Env) {p : Event → Bool}
    → IgnoresConfigPatch p
    → RetriesConflicts env
    → (name : NamespacedName) (gen : ℕ) (mutate : ProviderConfigStatus → ProviderConfigStatus)
    → Quiet p (patch_config_status env name gen mutate)
patch_config_status-Quiet env ignores retries name gen mutate =
    this_config_patch-Quiet env ignores.config_gets gen mutate
      (λ x a. ignores.config_patches (wanted_config env gen mutate x) a) retries name
