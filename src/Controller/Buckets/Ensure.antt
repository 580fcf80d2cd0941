-- ===== src/Controller/Buckets/Ensure.antt =====
-- Which calls `BucketReconciler.Reconcile` makes for a bucket that is not being deleted.
use vedro.Prelude.{
  suc, ◌≡◌, refl, Bool, true, false, ◌&&◌, Option, none, some, List, ◌∷◌, is_empty, Bool-cases, inl,
  inr, if◌then◌else◌,
}
use vedro.Errors.{Error, Result, ok, err}
use vedro.Conditions.{Condition}
use vedro.Api.Meta.{NamespacedName, UnsupportedFeature}
use vedro.Api.Provider.{ProviderConfig}
use vedro.Api.Bucket.{Bucket}
use vedro.Cloud.{BucketAttrs}
use vedro.Capabilities.{validate_bucket_capabilities}
use vedro.UsagePolicy.{Decision, Outcome, returns, panics, check_bucket}
use vedro.Kube.{Resolver}
use vedro.Kube.Events.{Event, History, Provider, external_bucket_ensure, provider_cleanup}
use vedro.Kube.Environment.{Env, RetriesConflicts}
use vedro.Kube.Quiet.{
  count, count-cons, Quiet, Quiet-pure, Quiet-bind, Quiet-if, once_if, count-gate,
}
use vedro.Controller.Finish.{Finish, reconciled, panicked}
use vedro.Controller.Setup.{ProviderSetup, ProviderSetupIssue}
use vedro.Controller.Setup.Calls.{
  IgnoresSetup, IgnoresPatch, prepare_provider-Quiet, with_cleanup-Quiet, patch_then-Quiet,
  patch_bucket_status-Quiet,
}
use vedro.Controller.Buckets.Apply.{
  report_features, call_ensure_bucket, after_ensure, ensure_bucket, validate_bucket, check_features,
  stamp, ensure_decided, with_provider, reconcile_prepared, reconcile_active,
}

module _ (env : Env) (name : NamespacedName) (retries : RetriesConflicts env) {p : Event → Bool}
    (patches : IgnoresPatch p) where
  pub report_features-Quiet :
      (r : Resolver Bucket) (c : Condition) (finish : Finish)
      → Quiet p (report_features env name r c finish)
  report_features-Quiet r c finish =
      patch_then-Quiet _ finish (patch_bucket_status-Quiet env retries patches name _ _)

  pub after_ensure-Quiet :
      (r : Resolver Bucket) (config : Resolver ProviderConfig) (answer : Result BucketAttrs)
      → Quiet p (after_ensure env name r config answer)
  unfolding after_ensure
  after_ensure-Quiet r config (err e) = report_features-Quiet r _ _
  after_ensure-Quiet r config (ok attrs) =
      patch_then-Quiet _ reconciled (patch_bucket_status-Quiet env retries patches name _ _)

  module _
      (ensures : (b : Bucket) (a : Result BucketAttrs)
        → p (external_bucket_ensure b a) ≡ false) where
    ensure_bucket-Quiet :
        (r : Resolver Bucket) (config : Resolver ProviderConfig)
        → Quiet p (ensure_bucket env name r config)
    unfolding ensure_bucket
    ensure_bucket-Quiet r config =
        Quiet-bind (call_ensure_bucket env name r.object) (after_ensure env name r config)
          (record { at = λ h. count-cons p _ h (ensures _ _) }) (after_ensure-Quiet r config)

    check_features-Quiet :
        (r : Resolver Bucket) (config : Resolver ProviderConfig) (provider : Provider)
        → Quiet p (check_features env name r config provider)
    unfolding check_features
    check_features-Quiet r config provider =
        search (Quiet-if, report_features-Quiet, ensure_bucket-Quiet)

    pub with_provider-Quiet :
        (r : Resolver Bucket) (config : Resolver ProviderConfig) (provider : Option Provider)
        → Quiet p (with_provider env name r config provider)
    unfolding with_provider
    with_provider-Quiet r config none = Quiet-pure panicked
    with_provider-Quiet r config (some provider) =
        decided (check_bucket env.regexp config.object.spec.usage_policy r.object)
      where
        decided : (d : Outcome Decision) → Quiet p (ensure_decided env name r config provider d)
        decided panics = Quiet-pure panicked
        decided (returns d) = search (Quiet-if, report_features-Quiet, check_features-Quiet)

    module _ (setups : IgnoresSetup p)
        (cleanups : (a : Option Error) → p (provider_cleanup a) ≡ false) where
      reconcile_prepared-Quiet :
          (r : Resolver Bucket) (x : ProviderSetup × Option ProviderSetupIssue)
          → Quiet p (reconcile_prepared env name r x)
      unfolding reconcile_prepared
      reconcile_prepared-Quiet r (setup, some issue) =
          with_cleanup-Quiet env cleanups setup.provider _
            (patch_then-Quiet _ _ (patch_bucket_status-Quiet env retries patches name _ _))
      reconcile_prepared-Quiet r (setup, none) =
          with_cleanup-Quiet env cleanups setup.provider _
            (with_provider-Quiet r (stamp r setup.config) setup.provider)

      -- Reconciling a bucket that is not being deleted makes no calls but those of preparing the
      -- provider, of patching the status, of `EnsureBucket` and of `Cleanup`.
      pub reconcile_active-Quiet : (r : Resolver Bucket) → Quiet p (reconcile_active env name r)
      unfolding reconcile_active
      reconcile_active-Quiet r =
          Quiet-bind _ (reconcile_prepared env name r) (prepare_provider-Quiet env setups _)
            (reconcile_prepared-Quiet r)

-- A call of `EnsureBucket`.
abbrev pub ensures : Event → Bool
ensures (external_bucket_ensure b a) = true
ensures _ = false

-- The usage policy allows the bucket.
abbrev pub outcome_allows : Outcome Decision → Bool
outcome_allows panics = false
outcome_allows (returns d) = d.allowed

-- The features that the provider lacks are put into the status before the spec is validated.
abbrev pub with_features : Provider → Bucket → Bucket
with_features provider b = record b {
  status = record b.status {
    unsupported_features = validate_bucket_capabilities provider.capabilities.bucket b.spec;
  };
}

abbrev is_valid_bucket : Provider → Bucket → Resolver ProviderConfig → Bool
is_valid_bucket provider b config = (provider.validate_bucket_spec b config.object.spec.type).valid

-- The three gates in front of `EnsureBucket`: the usage policy, the capabilities, the validation.
abbrev pub passes_gates : Env → Resolver Bucket → Resolver ProviderConfig → Provider → Bool
passes_gates env r config provider =
    outcome_allows (check_bucket env.regexp config.object.spec.usage_policy r.object)
    && (is_empty (validate_bucket_capabilities provider.capabilities.bucket r.object.spec)
        && is_valid_bucket provider (with_features provider r.object) config)

module _ (env : Env) (name : NamespacedName) (retries : RetriesConflicts env) where
  ensures-patch : IgnoresPatch ensures
  ensures-patch = record { bucket_gets = λ n a. refl; bucket_patches = λ b a. refl }

  ensure_bucket-ensures :
      (r : Resolver Bucket) (config : Resolver ProviderConfig) (h : History)
      → count ensures (ensure_bucket env name r config h).1 ≡ suc (count ensures h)
  unfolding ensure_bucket count
  ensure_bucket-ensures r config h =
      (after_ensure-Quiet env name retries ensures-patch r config (env.ensure_bucket h r.object)).at
        (external_bucket_ensure r.object (env.ensure_bucket h r.object) ∷ h)

  module _ (r : Resolver Bucket) (config : Resolver ProviderConfig) (provider : Provider)
      (h : History) where
    abbrev unsupported : List UnsupportedFeature
    unsupported = validate_bucket_capabilities provider.capabilities.bucket r.object.spec

    abbrev r' : Resolver Bucket
    r' = record r { object = with_features provider r.object }

    abbrev is_valid : Bool
    is_valid = (provider.validate_bucket_spec r'.object config.object.spec.type).valid

    validate_bucket-ensures :
        count ensures (validate_bucket env name r' config provider h).1 ≡ once_if ensures is_valid h
    unfolding validate_bucket
    validate_bucket-ensures = elim (Bool-cases is_valid) [
      | inl v ↦ rw v (ensure_bucket-ensures r' config h)
      | inr v ↦ rw v ((report_features-Quiet env name retries ensures-patch r' _ reconciled).at h)
    ]

    check_features-ensures :
        count ensures (check_features env name r config provider h).1
        ≡ once_if ensures (is_empty unsupported && is_valid) h
    unfolding check_features
    check_features-ensures =
        count-gate ensures (is_empty unsupported) is_valid _
          (validate_bucket env name r' config provider) h
          (report_features-Quiet env name retries ensures-patch r' _ _) validate_bucket-ensures

    ensure_decided-ensures :
        (d : Outcome Decision)
        → count ensures (ensure_decided env name r config provider d h).1
          ≡ once_if ensures (outcome_allows d && (is_empty unsupported && is_valid)) h
    unfolding ensure_decided
    ensure_decided-ensures panics = refl
    ensure_decided-ensures (returns d) =
        count-gate ensures d.allowed (is_empty unsupported && is_valid) _
          (check_features env name r config provider) h
          (report_features-Quiet env name retries ensures-patch r _ reconciled)
          check_features-ensures

  -- With a provider, `EnsureBucket` is called once if the usage policy allows the bucket, the
  -- provider has all the features that its spec asks for, and the spec is valid; otherwise it is
  -- not called.
  pub with_provider-ensures :
      (r : Resolver Bucket) (config : Resolver ProviderConfig) (provider : Provider) (h : History)
      → count ensures (with_provider env name r config (some provider) h).1
        ≡ (if passes_gates env r config provider then suc (count ensures h) else count ensures h)
  unfolding with_provider
  with_provider-ensures r config provider h =
      ensure_decided-ensures r config provider h
        (check_bucket env.regexp config.object.spec.usage_policy r.object)
