-- ===== src/Controller/Principals/Ensure.antt =====
-- Which calls `CloudPrincipalReconciler.Reconcile` makes for a principal that is not being deleted.
use vedro.Prelude.{
  suc, ◌≡◌, refl, Bool, true, false, ◌&&◌, Option, none, some, List, ◌∷◌, is_empty, Bool-cases, inl,
  inr, if◌then◌else◌,
}
use vedro.Errors.{Error, Result, ok, err}
use vedro.Conditions.{Condition}
use vedro.Api.Meta.{NamespacedName, UnsupportedFeature}
use vedro.Api.Provider.{ProviderConfig}
use vedro.Api.Principal.{CloudPrincipal}
use vedro.Cloud.{PrincipalAttrs}
use vedro.Capabilities.{validate_principal_capabilities}
use vedro.UsagePolicy.{Decision, Outcome, returns, panics, check_principal}
use vedro.Kube.{Resolver}
use vedro.Kube.Events.{Event, History, Provider, external_principal_ensure, provider_cleanup}
use vedro.Kube.Environment.{Env, RetriesConflicts}
use vedro.Kube.Quiet.{
  count, count-cons, Quiet, Quiet-pure, Quiet-bind, Quiet-if, once_if, count-gate,
}
use vedro.Controller.Finish.{Finish, reconciled, panicked}
use vedro.Controller.Setup.{ProviderSetup, ProviderSetupIssue}
use vedro.Controller.Setup.Calls.{
  IgnoresSetup, prepare_provider-Quiet, with_cleanup-Quiet, patch_then-Quiet,
}
use vedro.Controller.Principals.Patches.{IgnoresPrincipalPatch, patch_principal_status-Quiet}
use vedro.Controller.Principals.Apply.{
  report_principal_features, call_ensure_principal, after_principal_ensure, ensure_principal,
  validate_principal, check_principal_features, stamp_principal, ensure_principal_decided,
  with_principal_provider, reconcile_principal_prepared, reconcile_active_principal,
}

module _ (env : Env) (name : NamespacedName) (retries : RetriesConflicts env) {p : Event → Bool}
    (patches : IgnoresPrincipalPatch p) where
  pub report_principal_features-Quiet :
      (r : Resolver CloudPrincipal) (c : Condition) (finish : Finish)
      → Quiet p (report_principal_features env name r c finish)
  report_principal_features-Quiet r c finish =
      patch_then-Quiet _ finish (patch_principal_status-Quiet env patches retries name _ _)

  pub after_principal_ensure-Quiet :
      (r : Resolver CloudPrincipal) (config : Resolver ProviderConfig)
      (answer : Result PrincipalAttrs)
      → Quiet p (after_principal_ensure env name r config answer)
  unfolding after_principal_ensure
  after_principal_ensure-Quiet r config (err e) = report_principal_features-Quiet r _ _
  after_principal_ensure-Quiet r config (ok attrs) =
      patch_then-Quiet _ reconciled (patch_principal_status-Quiet env patches retries name _ _)

  module _
      (ensures : (b : CloudPrincipal) (a : Result PrincipalAttrs)
        → p (external_principal_ensure b a) ≡ false) where
    ensure_principal-Quiet :
        (r : Resolver CloudPrincipal) (config : Resolver ProviderConfig)
        → Quiet p (ensure_principal env name r config)
    unfolding ensure_principal
    ensure_principal-Quiet r config =
        Quiet-bind (call_ensure_principal env name r.object)
          (after_principal_ensure env name r config)
          (record { at = λ h. count-cons p _ h (ensures _ _) })
          (after_principal_ensure-Quiet r config)

    check_principal_features-Quiet :
        (r : Resolver CloudPrincipal) (config : Resolver ProviderConfig) (provider : Provider)
        → Quiet p (check_principal_features env name r config provider)
    unfolding check_principal_features
    check_principal_features-Quiet r config provider =
        search (Quiet-if, report_principal_features-Quiet, ensure_principal-Quiet)

    pub with_principal_provider-Quiet :
        (r : Resolver CloudPrincipal) (config : Resolver ProviderConfig)
        (provider : Option Provider)
        → Quiet p (with_principal_provider env name r config provider)
    unfolding with_principal_provider
    with_principal_provider-Quiet r config none = Quiet-pure panicked
    with_principal_provider-Quiet r config (some provider) =
        decided (check_principal env.regexp config.object.spec.usage_policy r.object)
      where
        decided :
            (d : Outcome Decision) → Quiet p (ensure_principal_decided env name r config provider d)
        decided panics = Quiet-pure panicked
        decided (returns d) =
            search (Quiet-if, report_principal_features-Quiet, check_principal_features-Quiet)

    module _ (setups : IgnoresSetup p)
        (cleanups : (a : Option Error) → p (provider_cleanup a) ≡ false) where
      reconcile_principal_prepared-Quiet :
          (r : Resolver CloudPrincipal) (x : ProviderSetup × Option ProviderSetupIssue)
          → Quiet p (reconcile_principal_prepared env name r x)
      unfolding reconcile_principal_prepared
      reconcile_principal_prepared-Quiet r (setup, some issue) =
          with_cleanup-Quiet env cleanups setup.provider _
            (patch_then-Quiet _ _ (patch_principal_status-Quiet env patches retries name _ _))
      reconcile_principal_prepared-Quiet r (setup, none) =
          with_cleanup-Quiet env cleanups setup.provider _
            (with_principal_provider-Quiet r (stamp_principal r setup.config) setup.provider)

      -- Reconciling a principal that is not being deleted makes no calls but those of preparing the
      -- provider, of patching the status, of `EnsurePrincipal` and of `Cleanup`.
      pub reconcile_active_principal-Quiet :
          (r : Resolver CloudPrincipal) → Quiet p (reconcile_active_principal env name r)
      unfolding reconcile_active_principal
      reconcile_active_principal-Quiet r =
          Quiet-bind _ (reconcile_principal_prepared env name r)
            (prepare_provider-Quiet env setups _) (reconcile_principal_prepared-Quiet r)

-- A call of `EnsurePrincipal`.
abbrev pub principal_ensures : Event → Bool
principal_ensures (external_principal_ensure b a) = true
principal_ensures _ = false

-- The usage policy allows the principal.
abbrev pub outcome_allows : Outcome Decision → Bool
outcome_allows panics = false
outcome_allows (returns d) = d.allowed

-- The features that the provider lacks are put into the status before the spec is validated.
abbrev pub with_principal_features : Provider → CloudPrincipal → CloudPrincipal
with_principal_features provider b = record b {
  status = record b.status {
    unsupported_features = validate_principal_capabilities provider.capabilities.principal b.spec;
  };
}

abbrev is_valid_principal : Provider → CloudPrincipal → Resolver ProviderConfig → Bool
is_valid_principal provider b config = (provider.validate_principal_spec b).valid

-- The three gates in front of `EnsurePrincipal`: the usage policy, the capabilities, the validation.
abbrev pub principal_passes_gates :
    Env → Resolver CloudPrincipal → Resolver ProviderConfig → Provider → Bool
principal_passes_gates env r config provider =
    outcome_allows (check_principal env.regexp config.object.spec.usage_policy r.object)
    && (is_empty (validate_principal_capabilities provider.capabilities.principal r.object.spec)
        && is_valid_principal provider (with_principal_features provider r.object) config)

module _ (env : Env) (name : NamespacedName) (retries : RetriesConflicts env) where
  principal_ensures-patch : IgnoresPrincipalPatch principal_ensures
  principal_ensures-patch = record { principal_gets = λ n a. refl; principal_patches = λ b a. refl }

  ensure_principal-ensures :
      (r : Resolver CloudPrincipal) (config : Resolver ProviderConfig) (h : History)
      → count principal_ensures (ensure_principal env name r config h).1
        ≡ suc (count principal_ensures h)
  unfolding ensure_principal count
  ensure_principal-ensures r config h =
      (after_principal_ensure-Quiet env name retries principal_ensures-patch r config
          (env.ensure_principal h r.object)).at
        (external_principal_ensure r.object (env.ensure_principal h r.object) ∷ h)

  module _ (r : Resolver CloudPrincipal) (config : Resolver ProviderConfig) (provider : Provider)
      (h : History) where
    abbrev unsupported : List UnsupportedFeature
    unsupported = validate_principal_capabilities provider.capabilities.principal r.object.spec

    abbrev r' : Resolver CloudPrincipal
    r' = record r { object = with_principal_features provider r.object }

    abbrev is_valid : Bool
    is_valid = (provider.validate_principal_spec r'.object).valid

    validate_principal-ensures :
        count principal_ensures (validate_principal env name r' config provider h).1
        ≡ once_if principal_ensures is_valid h
    unfolding validate_principal
    validate_principal-ensures = elim (Bool-cases is_valid) [
      | inl v ↦ rw v (ensure_principal-ensures r' config h)
      | inr v ↦ rw v (
          (report_principal_features-Quiet env name retries principal_ensures-patch r' _
              reconciled).at
            h)
    ]

    check_principal_features-ensures :
        count principal_ensures (check_principal_features env name r config provider h).1
        ≡ once_if principal_ensures (is_empty unsupported && is_valid) h
    unfolding check_principal_features
    check_principal_features-ensures =
        count-gate principal_ensures (is_empty unsupported) is_valid _
          (validate_principal env name r' config provider) h
          (report_principal_features-Quiet env name retries principal_ensures-patch r' _ _)
          validate_principal-ensures

    ensure_principal_decided-ensures :
        (d : Outcome Decision)
        → count principal_ensures (ensure_principal_decided env name r config provider d h).1
          ≡ once_if principal_ensures (outcome_allows d && (is_empty unsupported && is_valid)) h
    unfolding ensure_principal_decided
    ensure_principal_decided-ensures panics = refl
    ensure_principal_decided-ensures (returns d) =
        count-gate principal_ensures d.allowed (is_empty unsupported && is_valid) _
          (check_principal_features env name r config provider) h
          (report_principal_features-Quiet env name retries principal_ensures-patch r _ reconciled)
          check_principal_features-ensures

  -- With a provider, `EnsurePrincipal` is called once if the usage policy allows the principal, the
  -- provider has all the features that its spec asks for, and the spec is valid; otherwise it is
  -- not called.
  pub with_principal_provider-ensures :
      (r : Resolver CloudPrincipal) (config : Resolver ProviderConfig) (provider : Provider)
      (h : History)
      → count principal_ensures (with_principal_provider env name r config (some provider) h).1 ≡ (
          if principal_passes_gates env r config provider
          then suc (count principal_ensures h)
          else count principal_ensures h)
  unfolding with_principal_provider
  with_principal_provider-ensures r config provider h =
      ensure_principal_decided-ensures r config provider h
        (check_principal env.regexp config.object.spec.usage_policy r.object)
