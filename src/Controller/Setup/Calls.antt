-- ===== src/Controller/Setup/Calls.antt =====
-- Which calls `prepareProvider`, `Cleanup` and `patchStatus` make, and which not.
use vedro.Prelude.{◌≡◌, refl, ◌∙◌, Bool, false, arith, Option, none, some, ℕ}
use vedro.Errors.{Error, Result, ok, err}
use vedro.Api.Meta.{NamespacedName, ProviderConfigReference}
use vedro.Api.Provider.{ProviderConfig}
use vedro.Api.Bucket.{Bucket, BucketStatus}
use vedro.Kube.{Resolver, resolve_config}
use vedro.Kube.Events.{
  Event, History, M, Provider, bucket_get, bucket_patch, config_get, provider_new, provider_cleanup,
}
use vedro.Kube.Environment.{Env, RetriesConflicts}
use vedro.Kube.Quiet.{count, count-cons, Quiet, Quiet-bind, Quiet-pure, Quiet-retry}
use vedro.Controller.Finish.{Finish, patch_then, with_cleanup}
use vedro.Controller.Setup.{prepare_resolved, prepare_provider}
use vedro.Controller.Patch.{
  fetch_bucket, patch_unless_bucket, patch_found_bucket, patch_bucket_once, patch_bucket_status,
}

-- Events of the sort `p` are none of those of preparing a provider.
pub record IgnoresSetup (p : Event → Bool) : Type 0 where
  pub config_gets : (n : NamespacedName) (a : Result ProviderConfig) → p (config_get n a) ≡ false
  pub provider_news : (c : ProviderConfig) (a : Result Provider) → p (provider_new c a) ≡ false

-- Events of the sort `p` are none of those of a patch of a bucket's status.
pub record IgnoresPatch (p : Event → Bool) : Type 0 where
  pub bucket_gets : (n : NamespacedName) (a : Result Bucket) → p (bucket_get n a) ≡ false
  pub bucket_patches : (b : Bucket) (a : Option Error) → p (bucket_patch b a) ≡ false

pub with_cleanup-count :
    (env : Env) (p : Event → Bool)
    → ((a : Option Error) → p (provider_cleanup a) ≡ false)
    → (provider : Option Provider) (m : M Finish) (h : History)
    → count p (with_cleanup env provider m h).1 ≡ count p (m h).1
unfolding with_cleanup
with_cleanup-count env p i none m h = refl
with_cleanup-count env p i (some x) m h = count-cons p _ (m h).1 (i _)

module _ (env : Env) {p : Event → Bool} where
  resolve_config-Quiet : IgnoresSetup p → (n : NamespacedName) → Quiet p (resolve_config env n)
  unfolding resolve_config
  resolve_config-Quiet i n = record { at = λ h. count-cons p _ h (i.config_gets _ _) }

  prepare_resolved-Quiet :
      IgnoresSetup p → (config : Resolver ProviderConfig) → Quiet p (prepare_resolved env config)
  unfolding prepare_resolved
  prepare_resolved-Quiet i config = record {
    at = λ h.
        let answer = env.new_provider h config.object in
        ground (
          arith,
          count-cons p (provider_new config.object answer) h (i.provider_news config.object answer),
        );
  }

  pub prepare_provider-Quiet :
      IgnoresSetup p → (ref : ProviderConfigReference) → Quiet p (prepare_provider env ref)
  unfolding prepare_provider
  prepare_provider-Quiet i ref =
      Quiet-bind _ (prepare_resolved env) (resolve_config-Quiet i _) (prepare_resolved-Quiet i)

  pub with_cleanup-Quiet :
      ((a : Option Error) → p (provider_cleanup a) ≡ false)
      → (provider : Option Provider) (m : M Finish) → Quiet p m
      → Quiet p (with_cleanup env provider m)
  with_cleanup-Quiet i provider m q = record {
    at = λ h. with_cleanup-count env p i provider m h ∙ q.at h;
  }

  patch_unless_bucket-Quiet :
      IgnoresPatch p → {A : Type 0} (d : Dec A) (b : Bucket) → Quiet p (patch_unless_bucket env d b)
  unfolding patch_unless_bucket
  patch_unless_bucket-Quiet i (yes same) b = Quiet-pure none
  patch_unless_bucket-Quiet i (no changed) b = record {
    at = λ h. count-cons p _ h (i.bucket_patches _ _);
  }

  patch_found_bucket-Quiet :
      IgnoresPatch p
      → (gen : ℕ) (mutate : BucketStatus → BucketStatus) (answer : Result Bucket)
      → Quiet p (patch_found_bucket env gen mutate answer)
  unfolding patch_found_bucket
  patch_found_bucket-Quiet i gen mutate (err e) = Quiet-pure (some e)
  patch_found_bucket-Quiet i gen mutate (ok b) = patch_unless_bucket-Quiet i _ _

  fetch_bucket-Quiet : IgnoresPatch p → (name : NamespacedName) → Quiet p (fetch_bucket env name)
  unfolding fetch_bucket
  fetch_bucket-Quiet i name = record { at = λ h. count-cons p _ h (i.bucket_gets _ _) }

  patch_bucket_once-Quiet :
      IgnoresPatch p
      → (name : NamespacedName) (gen : ℕ) (mutate : BucketStatus → BucketStatus)
      → Quiet p (patch_bucket_once env name gen mutate)
  unfolding patch_bucket_once
  patch_bucket_once-Quiet i name gen mutate =
      Quiet-bind (fetch_bucket env name) (patch_found_bucket env gen mutate)
        (fetch_bucket-Quiet i name) (patch_found_bucket-Quiet i gen mutate)

  pub patch_bucket_status-Quiet :
      RetriesConflicts env
      → IgnoresPatch p
      → (name : NamespacedName) (gen : ℕ) (mutate : BucketStatus → BucketStatus)
      → Quiet p (patch_bucket_status env name gen mutate)
  unfolding patch_bucket_status
  patch_bucket_status-Quiet retries i name gen mutate =
      Quiet-retry (patch_bucket_once env name gen mutate)
        (patch_bucket_once-Quiet i name gen mutate) env retries

pub patch_then-Quiet :
    {p : Event → Bool} (m : M (Option Error)) (finish : Finish)
    → Quiet p m
    → Quiet p (patch_then m finish)
patch_then-Quiet m finish q = record { at = q.at }
