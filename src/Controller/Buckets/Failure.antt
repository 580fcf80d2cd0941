-- ===== src/Controller/Buckets/Failure.antt =====
-- What `BucketReconciler.Reconcile` returns when a call of the cloud fails.
pub mod Run
use vedro.Prelude.{
  ◌<◌, ◌≡◌, refl, ◌∙◌, Bool, true, false, not, Option, none, some, List, [], ◌∷◌, arith,
  if◌then◌else◌, Bool-cases, inl, inr,
}
use vedro.Errors.{Error, Result, ok, err}
use vedro.Conditions.{Condition}
use vedro.Api.Meta.{NamespacedName, ProviderConfigReference}
use vedro.Api.Provider.{ProviderConfig}
use vedro.Api.Bucket.{Bucket}
use vedro.Cloud.{BucketAttrs}
use vedro.UsagePolicy.{Decision, Outcome, returns, panics, check_bucket}
use vedro.Kube.{Resolver, resolve_bucket}
use vedro.Kube.Events.{
  Event, History, M, ◌>>=◌, pure, Provider, external_bucket_ensure, external_bucket_delete,
}
use vedro.Kube.Environment.{Env, RetriesConflicts}
use vedro.Kube.Quiet.{count, count-cons, Quiet, Quiet-pure}
use vedro.Controller.Finish.{
  Finish, returned, panicked, reconciled, reconcile_error, patch_then, with_cleanup,
}
use vedro.Controller.Setup.{ProviderSetup, ProviderSetupIssue, prepare_provider}
use vedro.Controller.Setup.Calls.{
  IgnoresSetup, IgnoresPatch, prepare_provider-Quiet, with_cleanup-count, patch_then-Quiet,
  patch_bucket_status-Quiet,
}
use vedro.Controller.Buckets.Apply.{
  report_features, after_ensure, ensure_bucket, validate_bucket, check_features, ensure_decided,
  with_provider, stamp, reconcile_prepared, reconcile_active, report_issue, finish_issue,
}
use vedro.Controller.Buckets.Ensure.{report_features-Quiet, after_ensure-Quiet}

-- The run returns an error.
abbrev pub Fails : Finish → Type 0
Fails f = (e : Error) × (f ≡ returned 0 (some e))

-- A call of `EnsureBucket` or of `DeleteBucket` that answered with an error.
abbrev pub fails : Event → Bool
fails (external_bucket_ensure b (err e)) = true
fails (external_bucket_delete b (some e)) = true
fails _ = false

-- When a run makes a call of the cloud that fails, it returns an error.
pub record Reports (m : M Finish) : Type 0 where
  pub at : (h : History) → count fails h < count fails (m h).1 → Fails (m h).0

pub Reports-Quiet : (m : M Finish) → Quiet fails m → Reports m
Reports-Quiet m quiet = record { at = λ h more. absurd (omega (arith, quiet.at h)) }

pub Reports-if : (b : Bool) (m n : M Finish) → Reports m → Reports n → Reports (if b then m else n)
Reports-if true m n rm rn = rm
Reports-if false m n rm rn = rn

pub Reports-bind :
    {A : Type 0} (m : M A) (f : A → M Finish)
    → Quiet fails m
    → ((a : A) → Reports (f a))
    → Reports (m >>= f)
Reports-bind m f quiet each = record {
  at = λ h more. (each (m h).0).at (m h).1 (omega (arith, quiet.at h, more));
}

pub Reports-cleanup :
    (env : Env) (provider : Option Provider) (m : M Finish)
    → Reports m
    → Reports (with_cleanup env provider m)
unfolding with_cleanup
Reports-cleanup env none m reports = reports
Reports-cleanup env (some p) m reports = record {
  at = λ h more.
      reports.at h (omega (arith, with_cleanup-count env fails (λ a. refl) (some p) m h, more));
}

-- What `patch_then` makes of the patch's answer.
pub patched-Fails :
    (answer : Option Error) (finish : Finish)
    → Fails finish
    → Fails (elim answer [ none ↦ finish | some e ↦ reconcile_error (some e) ])
patched-Fails none finish failed = failed
patched-Fails (some e) finish failed = (e, refl)

module _ (env : Env) (name : NamespacedName) (retries : RetriesConflicts env) where
  pub fails-patch : IgnoresPatch fails
  fails-patch = record { bucket_gets = λ n a. refl; bucket_patches = λ b a. refl }

  pub fails-setup : IgnoresSetup fails
  fails-setup = record { config_gets = λ n a. refl; provider_news = λ c a. refl }

  pub report_features-Reports :
      (r : Resolver Bucket) (c : Condition) (finish : Finish)
      → Reports (report_features env name r c finish)
  report_features-Reports r c finish =
      Reports-Quiet _ (report_features-Quiet env name retries fails-patch r c finish)

  ensured-Fails :
      (r : Resolver Bucket) (config : Resolver ProviderConfig) (answer : Result BucketAttrs)
      (h : History)
      → let before = external_bucket_ensure r.object answer ∷ h in
        count fails h < count fails (after_ensure env name r config answer before).1
        → Fails (after_ensure env name r config answer before).0
  unfolding after_ensure count
  ensured-Fails r config (err e) h more = patched-Fails _ (reconcile_error (some e)) (e, refl)
  ensured-Fails r config (ok attrs) h more =
      let before = external_bucket_ensure r.object (ok attrs) ∷ h in
      absurd (
        omega (
          arith,
          (after_ensure-Quiet env name retries fails-patch r config (ok attrs)).at before,
          more,
        ))

  ensure_bucket-Reports :
      (r : Resolver Bucket) (config : Resolver ProviderConfig)
      → Reports (ensure_bucket env name r config)
  unfolding ensure_bucket
  ensure_bucket-Reports r config = record {
    at = λ h more. ensured-Fails r config (env.ensure_bucket h r.object) h more;
  }

  validate_bucket-Reports :
      (r : Resolver Bucket) (config : Resolver ProviderConfig) (provider : Provider)
      → Reports (validate_bucket env name r config provider)
  unfolding validate_bucket
  validate_bucket-Reports r config provider =
      search (Reports-if, report_features-Reports, ensure_bucket-Reports)

  check_features-Reports :
      (r : Resolver Bucket) (config : Resolver ProviderConfig) (provider : Provider)
      → Reports (check_features env name r config provider)
  unfolding check_features
  check_features-Reports r config provider =
      search (Reports-if, report_features-Reports, validate_bucket-Reports)

  ensure_decided-Reports :
      (r : Resolver Bucket) (config : Resolver ProviderConfig) (provider : Provider)
      (d : Outcome Decision)
      → Reports (ensure_decided env name r config provider d)
  unfolding ensure_decided
  ensure_decided-Reports r config provider panics = Reports-Quiet _ (Quiet-pure panicked)
  ensure_decided-Reports r config provider (returns d) =
      search (Reports-if, report_features-Reports, check_features-Reports)

  with_provider-Reports :
      (r : Resolver Bucket) (config : Resolver ProviderConfig) (provider : Option Provider)
      → Reports (with_provider env name r config provider)
  unfolding with_provider
  with_provider-Reports r config none = Reports-Quiet _ (Quiet-pure panicked)
  with_provider-Reports r config (some provider) =
      ensure_decided-Reports r config provider
        (check_bucket env.regexp config.object.spec.usage_policy r.object)

  reconcile_prepared-Reports :
      (r : Resolver Bucket) (x : ProviderSetup × Option ProviderSetupIssue)
      → Reports (reconcile_prepared env name r x)
  unfolding reconcile_prepared report_issue
  reconcile_prepared-Reports r (setup, some issue) = Reports-cleanup env setup.provider _ (
      Reports-Quiet _ (
        patch_then-Quiet _ (finish_issue issue)
          (patch_bucket_status-Quiet env retries fails-patch name _ _)))
  reconcile_prepared-Reports r (setup, none) =
      Reports-cleanup env setup.provider _
        (with_provider-Reports r (stamp r setup.config) setup.provider)

  pub reconcile_active-Reports : (r : Resolver Bucket) → Reports (reconcile_active env name r)
  unfolding reconcile_active
  reconcile_active-Reports r =
      Reports-bind _ (reconcile_prepared env name r) (prepare_provider-Quiet env fails-setup _)
        (reconcile_prepared-Reports r)
