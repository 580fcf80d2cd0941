-- ===== src/Controller/Principals/Removal.antt =====
-- When `deleteCloudPrincipal` removes the finalizer of a principal, and so lets Kubernetes delete it.
use vedro.Prelude.{◌<◌, ◌≡◌, refl, ◌∙◌, ◌⊎◌, Bool, true, false, not, arith, Option, none, some, ◌∷◌}
use vedro.Errors.{Error, Result, ok, err}
use vedro.Conditions.{Condition}
use vedro.Api.Meta.{NamespacedName, ProviderConfigReference}
use vedro.Api.Principal.{CloudPrincipal}
use vedro.Resolvers.{principal_should_be_deleted, principal_is_provisioned}
use vedro.UsagePolicy.{Decision, Outcome, returns, panics, check_principal}
use vedro.Kube.{Resolver, principal_is_referenced}
use vedro.Kube.Events.{Event, History, pure, principal_update, external_principal_delete}
use vedro.Kube.Environment.{Env, RetriesConflicts}
use vedro.Kube.Quiet.{count, Quiet}
use vedro.Controller.Principals.Referenced.{
  Unreferenced, principal_is_referenced-Unreferenced, principal_is_referenced-Quiet,
}
use vedro.Controller.Finish.{Finish, reconciled, reconcile_error}
use vedro.Controller.Setup.{ProviderSetup, ProviderSetupIssue, prepare_provider}
use vedro.Controller.Setup.Calls.{
  IgnoresSetup, prepare_provider-Quiet, with_cleanup-count, patch_then-Quiet,
}
use vedro.Controller.Principals.Patches.{IgnoresPrincipalPatch, patch_principal_status-Quiet}
use vedro.Controller.Principals.Delete.{
  principal_finalizer, report_principal, after_principal_delete, delete_external_principal,
  keep_restricted_principal, kept_principal_condition, delete_principal_decided,
  delete_principal_prepared, delete_principal_unreferenced, delete_principal,
  principal_provider_for_delete,
}

-- An update that leaves the principal without the finalizer.
abbrev pub principal_removes : Env → Event → Bool
principal_removes env (principal_update b a) =
    not (env.contains_finalizer b.metadata.finalizers principal_finalizer)
principal_removes env _ = false

-- An external deletion that succeeded.
abbrev pub principal_deletes : Event → Bool
principal_deletes (external_principal_delete b none) = true
principal_deletes _ = false

module _ (env : Env) (name : NamespacedName) (retries : RetriesConflicts env) where
  pub removes-setup : IgnoresSetup (principal_removes env)
  removes-setup = record { config_gets = λ n a. refl; provider_news = λ c a. refl }

  deletes-setup : IgnoresSetup principal_deletes
  deletes-setup = record { config_gets = λ n a. refl; provider_news = λ c a. refl }

  pub removes-patch : IgnoresPrincipalPatch (principal_removes env)
  removes-patch = record { principal_gets = λ n a. refl; principal_patches = λ b a. refl }

  report_principal-removes :
      (r : Resolver CloudPrincipal) (c : Condition) (finish : Finish)
      → Quiet (principal_removes env) (report_principal env name r c finish)
  report_principal-removes r c finish =
      patch_then-Quiet _ finish (patch_principal_status-Quiet env removes-patch retries name _ _)

  module _ (r : Resolver CloudPrincipal) where
    after_principal_delete-removed :
        (answer : Option Error) (h : History)
        → count (principal_removes env) h ≡ 0
        → 0
          < count
              (principal_removes env)
              (after_principal_delete env name r answer
                (external_principal_delete r.object answer ∷ h)).1
        → 0
          < count principal_deletes
              (after_principal_delete env name r answer
                (external_principal_delete r.object answer ∷ h)).1
    unfolding after_principal_delete count
    after_principal_delete-removed none h z pos = omega arith
    after_principal_delete-removed (some e) h z pos = absurd (
        omega (
          arith,
          (report_principal-removes r _ _).at (external_principal_delete r.object (some e) ∷ h),
        ))

    delete_external_principal-removed :
        (h : History)
        → count (principal_removes env) h ≡ 0
        → 0 < count (principal_removes env) (delete_external_principal env name r h).1
        → 0 < count principal_deletes (delete_external_principal env name r h).1
    unfolding delete_external_principal
    delete_external_principal-removed h z pos =
        after_principal_delete-removed (env.delete_principal h r.object) h z pos

    keep_restricted_principal-removed :
        (h : History)
        → count (principal_removes env) h ≡ 0
        → 0 < count (principal_removes env) (keep_restricted_principal env name r h).1
        → principal_is_provisioned r.object ≡ false
    unfolding keep_restricted_principal
    keep_restricted_principal-removed h z pos =
        ground (arith, (report_principal-removes r (kept_principal_condition r) reconciled).at h)

    -- An external deletion was made and succeeded, or nothing is provisioned.
    abbrev Gone : History → Type 0
    Gone h = (0 < count principal_deletes h) ⊎ (principal_is_provisioned r.object ≡ false)

    delete_principal_decided-removed :
        (d : Outcome Decision) (h : History)
        → count (principal_removes env) h ≡ 0
        → 0 < count (principal_removes env) (delete_principal_decided env name r d h).1
        → Gone (delete_principal_decided env name r d h).1
    unfolding delete_principal_decided
    delete_principal_decided-removed panics h z pos = absurd (omega arith)
    delete_principal_decided-removed (returns d) h z pos =
        ground (arith, delete_external_principal-removed h, keep_restricted_principal-removed h)

    delete_principal_prepared-removed :
        (x : ProviderSetup × Option ProviderSetupIssue) (h : History)
        → count (principal_removes env) h ≡ 0
        → 0 < count (principal_removes env) (delete_principal_prepared env name r x h).1
        → Gone (delete_principal_prepared env name r x h).1
    unfolding delete_principal_prepared
    delete_principal_prepared-removed (setup, some issue) h z pos = absurd (
        omega (
          arith,
          with_cleanup-count env (principal_removes env) (λ a. refl) setup.provider
              (pure (reconcile_error issue.error)) h,
        ))
    delete_principal_prepared-removed (setup, none) h z pos =
        let d = check_principal env.regexp setup.config.object.spec.usage_policy r.object in
        let m = delete_principal_decided env name r d in
        ground (
          arith,
          with_cleanup-count env (principal_removes env) (λ a. refl) setup.provider m h,
          with_cleanup-count env principal_deletes (λ a. refl) setup.provider m h,
          delete_principal_decided-removed d h,
        )

    delete_principal_unreferenced-removed :
        (answer : Result Bool) (h : History)
        → count (principal_removes env) h ≡ 0
        → 0 < count (principal_removes env) (delete_principal_unreferenced env name r answer h).1
        → (answer ≡ ok false)
          × (principal_should_be_deleted r.object ≡ true
              → Gone (delete_principal_unreferenced env name r answer h).1)
    unfolding delete_principal_unreferenced
    delete_principal_unreferenced-removed (err e) h z pos = absurd (omega arith)
    delete_principal_unreferenced-removed (ok true) h z pos = absurd (omega arith)
    delete_principal_unreferenced-removed (ok false) h z pos =
        let ref : ProviderConfigReference = record {
          name = principal_provider_for_delete r.object;
        } in
        let prepared = prepare_provider env ref h in
        (
          refl,
          λ policy. ground (
            arith,
            (prepare_provider-Quiet env removes-setup ref).at h,
            delete_principal_prepared-removed prepared.0 prepared.1,
          ),
        )

    -- `deleteCloudPrincipal` removes the finalizer only after no access and no authentication was
    -- found to refer to the principal and, if the principal should be deleted, after its external
    -- deletion or with nothing provisioned.
    pub delete_principal-removed :
        (h : History)
        → count (principal_removes env) h ≡ 0
        → 0 < count (principal_removes env) (delete_principal env name r h).1
        → Unreferenced env r.object.metadata h
          × (principal_should_be_deleted r.object ≡ true → Gone (delete_principal env name r h).1)
    unfolding delete_principal
    delete_principal-removed h z pos =
        let has : env.contains_finalizer r.object.metadata.finalizers principal_finalizer ≡ true =
          ground arith in
        let asked = principal_is_referenced env r.object.metadata h in
        let q =
          principal_is_referenced-Quiet env r.object.metadata {p = principal_removes env}
            (λ a. refl) (λ a. refl) in
        let found =
          delete_principal_unreferenced-removed asked.0 asked.1 (q.at h ∙ z) (rw has at pos) in
        rw has (principal_is_referenced-Unreferenced env r.object.metadata h found.0, found.1)
