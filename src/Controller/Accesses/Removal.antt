-- ===== src/Controller/Accesses/Removal.antt =====
-- When `deleteBucketAccess` removes the finalizer.
use vedro.Prelude.{◌<◌, ◌≡◌, refl, ◌⊎◌, Bool, true, false, not, Option, none, some, ◌∷◌, arith}
use vedro.Errors.{Error}
use vedro.Api.Meta.{NamespacedName, ProviderConfigReference}
use vedro.Api.Access.{BucketAccess}
use vedro.Resolvers.{access_should_be_deleted, access_is_provisioned}
use vedro.UsagePolicy.{Decision, check_bucket_access}
use vedro.Kube.{Resolver}
use vedro.Kube.Events.{Event, History, pure, access_update, external_access_delete}
use vedro.Kube.Environment.{Env, RetriesConflicts}
use vedro.Kube.Quiet.{count, Quiet}
use vedro.Controller.Finish.{reconciled, reconcile_error}
use vedro.Controller.Setup.{ProviderSetup, ProviderSetupIssue, prepare_provider}
use vedro.Controller.Setup.Calls.{
  IgnoresSetup, prepare_provider-Quiet, with_cleanup-count, patch_then-Quiet,
}
use vedro.Controller.Accesses.Delete.{
  access_finalizer, kept_access_condition, report_access, after_access_delete,
  delete_access_decided, delete_access_prepared, delete_access,
}
use vedro.Controller.Accesses.Patches.{IgnoresAccessPatch, patch_access_status-Quiet}

-- An update that leaves the access without the finalizer.
abbrev pub removes_access : Env → Event → Bool
removes_access env (access_update a answer) =
    not (env.contains_finalizer a.metadata.finalizers access_finalizer)
removes_access env _ = false

-- An external deletion of an access that succeeded.
abbrev pub ends_access : Event → Bool
ends_access (external_access_delete a none) = true
ends_access _ = false

module _ (env : Env) (name : NamespacedName) (retries : RetriesConflicts env)
    (r : Resolver BucketAccess) where
  ignores-setup : IgnoresSetup (removes_access env)
  ignores-setup = record { config_gets = λ n a. refl; provider_news = λ c a. refl }

  ignores-patch : IgnoresAccessPatch (removes_access env)
  ignores-patch = record { access_gets = λ n a. refl; access_patches = λ b a. refl }

  after_access_delete-removed :
      (answer : Option Error) (h : History)
      → count (removes_access env) h ≡ 0
      → 0
        < count
            (removes_access env)
            (after_access_delete env name r answer (external_access_delete r.object answer ∷ h)).1
      → 0
        < count ends_access
            (after_access_delete env name r answer (external_access_delete r.object answer ∷ h)).1
  unfolding after_access_delete count
  after_access_delete-removed none h z pos = omega arith
  after_access_delete-removed (some e) h z pos =
      let q : Quiet (removes_access env) (after_access_delete env name r (some e)) =
        patch_then-Quiet _ (reconcile_error (some e))
          (patch_access_status-Quiet env ignores-patch retries name _ _) in
      absurd (omega (arith, q.at (external_access_delete r.object (some e) ∷ h)))

  delete_access_decided-removed :
      (d : Decision) (h : History)
      → access_is_provisioned r.object ≡ true
      → count (removes_access env) h ≡ 0
      → 0 < count (removes_access env) (delete_access_decided env name r d h).1
      → 0 < count ends_access (delete_access_decided env name r d h).1
  unfolding delete_access_decided
  delete_access_decided-removed d h applied z pos =
      let q : Quiet (removes_access env)
          (report_access env name r (kept_access_condition r) reconciled) =
        patch_then-Quiet _ reconciled
          (patch_access_status-Quiet env ignores-patch retries name _ _) in
      ground (arith, q.at h, after_access_delete-removed (env.delete_external_access h r.object) h)

  delete_access_prepared-removed :
      (x : ProviderSetup × Option ProviderSetupIssue) (h : History)
      → access_is_provisioned r.object ≡ true
      → count (removes_access env) h ≡ 0
      → 0 < count (removes_access env) (delete_access_prepared env name r x h).1
      → 0 < count ends_access (delete_access_prepared env name r x h).1
  unfolding delete_access_prepared
  delete_access_prepared-removed (setup, some issue) h applied z pos = absurd (
      omega (
        arith,
        with_cleanup-count env (removes_access env) (λ a. refl) setup.provider
            (pure (reconcile_error issue.error)) h,
      ))
  delete_access_prepared-removed (setup, none) h applied z pos =
      let d = check_bucket_access setup.config.object.spec.usage_policy r.object in
      let m = delete_access_decided env name r d in
      ground (
        arith,
        with_cleanup-count env (removes_access env) (λ a. refl) setup.provider m h,
        with_cleanup-count env ends_access (λ a. refl) setup.provider m h,
        delete_access_decided-removed d h,
      )

  -- `deleteBucketAccess` removes the finalizer only when the deletion policy is not Delete, when no
  -- access is recorded as applied, or after an external deletion that succeeded.
  pub delete_access-removal :
      (h : History)
      → count (removes_access env) h ≡ 0
      → 0 < count (removes_access env) (delete_access env name r h).1
      → (access_should_be_deleted r.object ≡ false)
        ⊎ ((access_is_provisioned r.object ≡ false)
            ⊎ (0 < count ends_access (delete_access env name r h).1))
  unfolding delete_access
  delete_access-removal h z pos =
      let ref : ProviderConfigReference = record { name = r.object.status.observed_provider } in
      let prepared = prepare_provider env ref h in
      ground (
        arith,
        (prepare_provider-Quiet env ignores-setup ref).at h,
        delete_access_prepared-removed prepared.0 prepared.1,
      )
