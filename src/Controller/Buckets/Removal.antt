-- ===== src/Controller/Buckets/Removal.antt =====
-- When `deleteBucket` removes the finalizer of a bucket, and so lets Kubernetes delete it.
use vedro.Prelude.{
  ◌<◌, ◌≡◌, refl, ◌⊎◌, Bool, true, false, not, arith, Option, none, some, List, ◌∷◌,
}
use vedro.Errors.{Error, Result, ok, err}
use vedro.Conditions.{Condition}
use vedro.Api.Meta.{NamespacedName, ProviderConfigReference}
use vedro.Api.Bucket.{Bucket}
use vedro.Api.Access.{BucketAccess}
use vedro.Resolvers.{bucket_should_be_deleted, bucket_is_provisioned}
use vedro.UsagePolicy.{Decision, Outcome, returns, panics, check_bucket}
use vedro.Kube.{Resolver, any, listed_any, access_refers_to_bucket}
use vedro.Kube.Events.{Event, History, pure, bucket_update, external_bucket_delete, access_list}
use vedro.Kube.Environment.{Env, RetriesConflicts}
use vedro.Kube.Quiet.{count, Quiet}
use vedro.Controller.Finish.{Finish, reconciled, reconcile_error}
use vedro.Controller.Setup.{ProviderSetup, ProviderSetupIssue, prepare_provider}
use vedro.Controller.Setup.Calls.{
  IgnoresSetup, IgnoresPatch, prepare_provider-Quiet, with_cleanup-count, patch_then-Quiet,
  patch_bucket_status-Quiet,
}
use vedro.Controller.Buckets.Delete.{
  bucket_finalizer, report, after_delete, delete_external, keep_restricted, kept_condition,
  delete_decided, delete_prepared, delete_unreferenced, delete_bucket, provider_for_delete,
}

-- An update that leaves the bucket without the finalizer.
abbrev pub removes : Env → Event → Bool
removes env (bucket_update b a) =
    not (env.contains_finalizer b.metadata.finalizers bucket_finalizer)
removes env _ = false

-- An external deletion that succeeded.
abbrev pub deletes : Event → Bool
deletes (external_bucket_delete b none) = true
deletes _ = false

module _ (env : Env) (name : NamespacedName) (retries : RetriesConflicts env) where
  pub removes-setup : IgnoresSetup (removes env)
  removes-setup = record { config_gets = λ n a. refl; provider_news = λ c a. refl }

  deletes-setup : IgnoresSetup deletes
  deletes-setup = record { config_gets = λ n a. refl; provider_news = λ c a. refl }

  pub removes-patch : IgnoresPatch (removes env)
  removes-patch = record { bucket_gets = λ n a. refl; bucket_patches = λ b a. refl }

  report-removes :
      (r : Resolver Bucket) (c : Condition) (finish : Finish)
      → Quiet (removes env) (report env name r c finish)
  report-removes r c finish =
      patch_then-Quiet _ finish (patch_bucket_status-Quiet env retries removes-patch name _ _)

  module _ (r : Resolver Bucket) where
    after_delete-removed :
        (answer : Option Error) (h : History)
        → count (removes env) h ≡ 0
        → 0
          < count
              (removes env)
              (after_delete env name r answer (external_bucket_delete r.object answer ∷ h)).1
        → 0
          < count deletes
              (after_delete env name r answer (external_bucket_delete r.object answer ∷ h)).1
    unfolding after_delete count
    after_delete-removed none h z pos = omega arith
    after_delete-removed (some e) h z pos =
        absurd
          (omega (arith, (report-removes r _ _).at (external_bucket_delete r.object (some e) ∷ h)))

    delete_external-removed :
        (h : History)
        → count (removes env) h ≡ 0
        → 0 < count (removes env) (delete_external env name r h).1
        → 0 < count deletes (delete_external env name r h).1
    unfolding delete_external
    delete_external-removed h z pos = after_delete-removed (env.delete_bucket h r.object) h z pos

    keep_restricted-removed :
        (h : History)
        → count (removes env) h ≡ 0
        → 0 < count (removes env) (keep_restricted env name r h).1
        → bucket_is_provisioned r.object ≡ false
    unfolding keep_restricted
    keep_restricted-removed h z pos =
        ground (arith, (report-removes r (kept_condition r) reconciled).at h)

    -- An external deletion was made and succeeded, or nothing is provisioned.
    abbrev Gone : History → Type 0
    Gone h = (0 < count deletes h) ⊎ (bucket_is_provisioned r.object ≡ false)

    delete_decided-removed :
        (d : Outcome Decision) (h : History)
        → count (removes env) h ≡ 0
        → 0 < count (removes env) (delete_decided env name r d h).1
        → Gone (delete_decided env name r d h).1
    unfolding delete_decided
    delete_decided-removed panics h z pos = absurd (omega arith)
    delete_decided-removed (returns d) h z pos =
        ground (arith, delete_external-removed h, keep_restricted-removed h)

    delete_prepared-removed :
        (x : ProviderSetup × Option ProviderSetupIssue) (h : History)
        → count (removes env) h ≡ 0
        → 0 < count (removes env) (delete_prepared env name r x h).1
        → Gone (delete_prepared env name r x h).1
    unfolding delete_prepared
    delete_prepared-removed (setup, some issue) h z pos = absurd (
        omega (
          arith,
          with_cleanup-count env (removes env) (λ a. refl) setup.provider
              (pure (reconcile_error issue.error)) h,
        ))
    delete_prepared-removed (setup, none) h z pos =
        let d = check_bucket env.regexp setup.config.object.spec.usage_policy r.object in
        let m = delete_decided env name r d in
        ground (
          arith,
          with_cleanup-count env (removes env) (λ a. refl) setup.provider m h,
          with_cleanup-count env deletes (λ a. refl) setup.provider m h,
          delete_decided-removed d h,
        )

    delete_unreferenced-removed :
        (answer : Result Bool) (h : History)
        → count (removes env) h ≡ 0
        → 0 < count (removes env) (delete_unreferenced env name r answer h).1
        → (answer ≡ ok false)
          × (bucket_should_be_deleted r.object ≡ true
              → Gone (delete_unreferenced env name r answer h).1)
    unfolding delete_unreferenced
    delete_unreferenced-removed (err e) h z pos = absurd (omega arith)
    delete_unreferenced-removed (ok true) h z pos = absurd (omega arith)
    delete_unreferenced-removed (ok false) h z pos =
        let ref : ProviderConfigReference = record { name = provider_for_delete r.object } in
        let prepared = prepare_provider env ref h in
        (
          refl,
          λ policy. ground (
            arith,
            (prepare_provider-Quiet env removes-setup ref).at h,
            delete_prepared-removed prepared.0 prepared.1,
          ),
        )

    abbrev refers : BucketAccess → Bool
    refers = access_refers_to_bucket r.object.metadata

    delete_listed-removed :
        (answer : Result (List BucketAccess)) (h : History)
        → count (removes env) h ≡ 0
        → 0
          < count
              (removes env)
              (delete_unreferenced env name r (listed_any refers answer) (access_list answer ∷ h)).1
        → (accesses : List BucketAccess) × (answer ≡ ok accesses)
          × (any refers accesses ≡ false)
          × (bucket_should_be_deleted r.object ≡ true
              → Gone
                  (delete_unreferenced env name r
                    (listed_any refers answer)
                    (access_list answer ∷ h)).1)
    unfolding count
    delete_listed-removed (err e) h z pos =
        let found = delete_unreferenced-removed (err e) (access_list (err e) ∷ h) z pos in
        cc found.0
    delete_listed-removed (ok accesses) h z pos =
        let found =
          delete_unreferenced-removed (ok (any refers accesses)) (access_list (ok accesses) ∷ h) z
            pos in
        (accesses, refl, cc found.0, found.1)

    -- `deleteBucket` removes the finalizer only after no access was found to refer to the bucket
    -- and, if the bucket should be deleted, after its external deletion or with nothing provisioned.
    pub delete_bucket-removed :
        (h : History)
        → count (removes env) h ≡ 0
        → 0 < count (removes env) (delete_bucket env name r h).1
        → (accesses : List BucketAccess) × (env.list_accesses h ≡ ok accesses)
          × (any (access_refers_to_bucket r.object.metadata) accesses ≡ false)
          × (bucket_should_be_deleted r.object ≡ true → Gone (delete_bucket env name r h).1)
    unfolding delete_bucket
    delete_bucket-removed h z pos =
        let has : env.contains_finalizer r.object.metadata.finalizers bucket_finalizer ≡ true =
          ground arith in
        rw has (delete_listed-removed (env.list_accesses h) h z (rw has at pos))
