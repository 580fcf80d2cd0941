-- ===== src/Controller/Accesses/Ensure.antt =====
-- When `BucketAccessReconciler.Reconcile` calls `EnsureBucketAccess`.
use vedro.Prelude.{
  ap, ◌∙◌, Option, none, suc, ◌<◌, ◌≡◌, refl, Bool, true, false, not, ◌==◌, ◌&&◌, ◌||◌, is_empty,
  some, ◌∷◌, arith, if◌then◌else◌, Bool-cases, inl, inr,
}
use vedro.Errors.{Result, ok, err}
use vedro.Conditions.{condition_true}
use vedro.Api.Meta.{NamespacedName}
use vedro.Api.Bucket.{Bucket}
use vedro.Api.Access.{BucketAccess}
use vedro.Api.Principal.{CloudPrincipal}
use vedro.Cloud.{BucketAccessAttrs}
use vedro.UsagePolicy.{Decision, check_bucket_access}
use vedro.Capabilities.{validate_bucket_access_capabilities}
use vedro.Kube.{Resolver}
use vedro.Kube.Events.{Event, History, M, pure, Provider, external_access_ensure}
use vedro.Kube.Environment.{Env, RetriesConflicts}
use vedro.Kube.Quiet.{count, Quiet, once_if, count-gate}
use vedro.Controller.Finish.{Finish, panicked, reconciled, reconcile_error}
use vedro.Controller.Setup.{ProviderSetup, ProviderSetupIssue, prepare_provider}
use vedro.Controller.Setup.Calls.{
  IgnoresSetup, prepare_provider-Quiet, with_cleanup-count, patch_then-Quiet,
}
use vedro.Controller.Buckets.Apply.{finish_issue}
use vedro.Controller.Accesses.Apply.{
  Resolved, stamp_config, after_access_ensure, ensure_access, check_access_features, access_decided,
  report_access_issue, reconcile_access_prepared, reconcile_bucket_access,
}
use vedro.Controller.Accesses.Reconcile.{dependencies_judged}
use vedro.Controller.Accesses.Patches.{IgnoresAccessPatch, patch_access_status-Quiet}

-- A call of `EnsureBucketAccess`.
abbrev pub grants : Event → Bool
grants (external_access_ensure b p a answer) = true
grants _ = false

-- The provider has the level that the access asks for.
abbrev pub is_supported : Provider → BucketAccess → Bool
is_supported provider a =
    is_empty (validate_bucket_access_capabilities provider.capabilities.bucket_access a.spec)

-- The provider that was made supports the level of the access.
abbrev pub supported_by : Option Provider → BucketAccess → Bool
supported_by none a = false
supported_by (some provider) a = is_supported provider a

-- The provider was prepared without an issue, the usage policy of its ProviderConfig allows the
-- access, and the provider supports the level.
abbrev pub may_grant : BucketAccess → ProviderSetup × Option ProviderSetupIssue → Bool
may_grant a (setup, some issue) = false
may_grant a (setup, none) =
    (check_bucket_access setup.config.object.spec.usage_policy a).allowed
    && supported_by setup.provider a

-- The features that the provider lacks are put into the status of the access.
abbrev with_access_features : Provider → Resolved → Resolved
with_access_features provider x = record x {
  access = record x.access {
    object = record x.access.object {
      status = record x.access.object.status {
        unsupported_features =
            validate_bucket_access_capabilities provider.capabilities.bucket_access
              x.access.object.spec;
      };
    };
  };
}

module _ (env : Env) (name : NamespacedName) (retries : RetriesConflicts env) where
  grants-patch : IgnoresAccessPatch grants
  grants-patch = record { access_gets = λ n a. refl; access_patches = λ b a. refl }

  grants-setup : IgnoresSetup grants
  grants-setup = record { config_gets = λ n a. refl; provider_news = λ c a. refl }

  after_access_ensure-Quiet :
      (x : Resolved) (answer : Result BucketAccessAttrs)
      → Quiet grants (after_access_ensure env name x answer)
  unfolding after_access_ensure
  after_access_ensure-Quiet x (err e) =
      patch_then-Quiet _ (reconcile_error (some e))
        (patch_access_status-Quiet env grants-patch retries name _ _)
  after_access_ensure-Quiet x (ok attrs) =
      patch_then-Quiet _ reconciled (patch_access_status-Quiet env grants-patch retries name _ _)

  ensure_access-grants :
      (x : Resolved) (h : History)
      → count grants (ensure_access env name x h).1 ≡ suc (count grants h)
  unfolding ensure_access count
  ensure_access-grants x h =
      let answer = env.ensure_access h x.bucket.object x.principal.object x.access.object in
      (after_access_ensure-Quiet x answer).at
        (external_access_ensure x.bucket.object x.principal.object x.access.object answer ∷ h)

  check_access_features-grants :
      (x : Resolved) (provider : Provider) (h : History)
      → count grants (check_access_features env name x provider h).1
        ≡ (if is_supported provider x.access.object then suc (count grants h) else count grants h)
  unfolding check_access_features
  check_access_features-grants x provider h =
      elim (Bool-cases (is_supported provider x.access.object)) [
        | inl supported ↦ rw supported (ensure_access-grants (with_access_features provider x) h)
        | inr missing ↦ rw missing (
            (patch_then-Quiet _ reconciled
                (patch_access_status-Quiet env grants-patch retries name _ _)).at
              h)
      ]

  access_decided-grants :
      (x : Resolved) (provider : Option Provider) (d : Decision) (h : History)
      → count grants (access_decided env name x provider d h).1
        ≡ once_if grants (d.allowed && supported_by provider x.access.object) h
  unfolding access_decided
  access_decided-grants x none d h =
      count-gate grants d.allowed false _ (pure panicked) h
        (patch_then-Quiet _ reconciled
          (patch_access_status-Quiet env grants-patch retries name _ _))
        refl
  access_decided-grants x (some provider) d h =
      count-gate grants d.allowed (is_supported provider x.access.object) _
        (check_access_features env name x provider) h
        (patch_then-Quiet _ reconciled
          (patch_access_status-Quiet env grants-patch retries name _ _))
        (check_access_features-grants x provider h)

  reconcile_access_prepared-grants :
      (r : Resolver BucketAccess) (b : Resolver Bucket) (p : Resolver CloudPrincipal)
      (x : ProviderSetup × Option ProviderSetupIssue) (h : History)
      → count grants (reconcile_access_prepared env name r b p x h).1
        ≡ once_if grants (may_grant r.object x) h
  unfolding reconcile_access_prepared report_access_issue
  reconcile_access_prepared-grants r b p (setup, some issue) h =
      with_cleanup-count env grants (λ a. refl) setup.provider _ h
      ∙ (patch_then-Quiet _ (finish_issue issue)
            (patch_access_status-Quiet env grants-patch retries name _ _)).at
          h
  reconcile_access_prepared-grants r b p (setup, none) h =
      let x : Resolved = record {
        access = r;
        bucket = b;
        principal = p;
        config = stamp_config r setup.config;
      } in
      let d = check_bucket_access setup.config.object.spec.usage_policy r.object in
      with_cleanup-count env grants (λ a. refl) setup.provider
        (access_decided env name x setup.provider d) h
      ∙ access_decided-grants x setup.provider d h

  -- `reconcileBucketAccess` calls `EnsureBucketAccess` once if the provider was prepared without an
  -- issue, the usage policy of its ProviderConfig allows the access, and the provider supports its
  -- level; otherwise it does not call it.
  pub reconcile_bucket_access-grants :
      (r : Resolver BucketAccess) (b : Resolver Bucket) (p : Resolver CloudPrincipal) (h : History)
      → count grants (reconcile_bucket_access env name r b p h).1 ≡ (
          if may_grant r.object (prepare_provider env b.object.spec.provider_ref h).0
          then suc (count grants h)
          else count grants h)
  unfolding reconcile_bucket_access
  reconcile_bucket_access-grants r b p h =
      let ref = b.object.spec.provider_ref in
      let prepared = prepare_provider env ref h in
      let quiet = (prepare_provider-Quiet env grants-setup ref).at h in
      reconcile_access_prepared-grants r b p prepared.0 prepared.1
      ∙ ap (λ n. if may_grant r.object prepared.0 then suc n else n) quiet

  blocked :
      (b : Bool) (m n : M Finish) (h : History)
      → Quiet grants m
      → count grants h < count grants ((if b then m else n) h).1
      → (b ≡ false) × (count grants h < count grants (n h).1)
  blocked true m n h q called = absurd (omega (arith, q.at h))
  blocked false m n h q called = (refl, called)

  -- `EnsureBucketAccess` is called only when the conditions of the bucket and of the principal have
  -- status True and both refer to the same ProviderConfig.
  pub dependencies_judged-gate :
      (r : Resolver BucketAccess) (b : Resolver Bucket) (p : Resolver CloudPrincipal) (h : History)
      → count grants h < count grants (dependencies_judged env name r b p h).1
      → ((b.condition.status == condition_true) ≡ true)
        × ((p.condition.status == condition_true) ≡ true)
        × ((p.object.spec.provider_ref.name == b.object.spec.provider_ref.name) ≡ true)
  unfolding dependencies_judged
  dependencies_judged-gate r b p h called =
      let unready =
        not (p.condition.status == condition_true) || not (b.condition.status == condition_true) in
      let other = not (p.object.spec.provider_ref.name == b.object.spec.provider_ref.name) in
      let first =
        blocked unready _ _ h
          (patch_then-Quiet _ reconciled
            (patch_access_status-Quiet env grants-patch retries name _ _))
          called in
      let second =
        blocked other _ _ h
          (patch_then-Quiet _ reconciled
            (patch_access_status-Quiet env grants-patch retries name _ _))
          first.1 in
      ground (arith, first.0, second.0)
