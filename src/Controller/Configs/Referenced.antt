-- ===== src/Controller/Configs/Referenced.antt =====
-- `ProviderConfigResolver.IsReferenced`: what its answer says of the lists that it read.
use vedro.Prelude.{◌≡◌, refl, Bool, true, false, arith, List, ◌∷◌, if◌then◌else◌}
use vedro.Errors.{Result, ok, err}
use vedro.Api.Meta.{ObjectMeta}
use vedro.Api.Bucket.{Bucket}
use vedro.Api.Principal.{CloudPrincipal}
use vedro.Kube.{
  any, bucket_refers_to_config, principal_refers_to_config, config_is_referenced,
  config_after_buckets, list_buckets, list_principals,
}
use vedro.Kube.Events.{Event, History, M, pure, bucket_list, principal_list}
use vedro.Kube.Environment.{Env}
use vedro.Kube.Quiet.{count-cons, Quiet, Quiet-bind, Quiet-pure, Quiet-if}

-- Where a test leads to the answer true, the answer false says that it failed.
test-false :
    (b : Bool) (rest : M (Result Bool)) (h : History)
    → ((if b then pure (ok true) else rest) h).0 ≡ ok false
    → b ≡ false
test-false true rest h f = cc f
test-false false rest h f = refl

module _ (env : Env) (m : ObjectMeta) where
  -- Both lists were read, and nothing in them refers to the ProviderConfig.
  abbrev pub UnreferencedConfig : History → Type 0
  UnreferencedConfig h =
      (buckets : List Bucket) × (principals : List CloudPrincipal) × (env.list_buckets h
        ≡ ok buckets)
      × (env.list_principals (bucket_list (ok buckets) ∷ h) ≡ ok principals)
      × (any (bucket_refers_to_config m) buckets ≡ false)
      × (any (principal_refers_to_config m) principals ≡ false)

  after_principals-Unreferenced :
      (buckets : List Bucket) (answer : Result (List CloudPrincipal)) (h : History)
      → env.list_buckets h ≡ ok buckets
      → env.list_principals (bucket_list (ok buckets) ∷ h) ≡ answer
      → any (bucket_refers_to_config m) buckets ≡ false
      → (config_after_buckets env m (ok buckets) (bucket_list (ok buckets) ∷ h)).0 ≡ ok false
      → UnreferencedConfig h
  unfolding config_after_buckets list_principals
  after_principals-Unreferenced buckets (err e) h listed read clear f =
      absurd (ground (arith, listed, read))
  after_principals-Unreferenced buckets (ok principals) h listed read clear f =
      (buckets, principals, listed, read, clear, ground arith)

  after_buckets-Unreferenced :
      (answer : Result (List Bucket)) (h : History)
      → env.list_buckets h ≡ answer
      → (config_after_buckets env m answer (bucket_list answer ∷ h)).0 ≡ ok false
      → UnreferencedConfig h
  unfolding config_after_buckets
  after_buckets-Unreferenced (err e) h listed f = cc f
  after_buckets-Unreferenced (ok buckets) h listed f =
      let clear = test-false (any (bucket_refers_to_config m) buckets) _ _ f in
      after_principals-Unreferenced buckets _ h listed refl clear f

  pub config_is_referenced-Unreferenced :
      (h : History) → (config_is_referenced env m h).0 ≡ ok false → UnreferencedConfig h
  unfolding config_is_referenced list_buckets
  config_is_referenced-Unreferenced h f = after_buckets-Unreferenced (env.list_buckets h) h refl f

  -- Events of the sort `p` are none of those of `IsReferenced`.
  abbrev pub IgnoresLists : (Event → Bool) → Type 0
  IgnoresLists p =
      ((a : Result (List Bucket)) → p (bucket_list a) ≡ false)
      × ((a : Result (List CloudPrincipal)) → p (principal_list a) ≡ false)

  module _ {p : Event → Bool} (ignores : IgnoresLists p) where
    after_buckets-Quiet :
        (answer : Result (List Bucket)) → Quiet p (config_after_buckets env m answer)
    unfolding config_after_buckets list_principals
    after_buckets-Quiet (err e) = Quiet-pure (err e)
    after_buckets-Quiet (ok buckets) =
        Quiet-if (any (bucket_refers_to_config m) buckets) _ _ (λ b. Quiet-pure (ok true))
          (λ b. record { at = λ h. count-cons _ _ h (ignores.1 _) })

    lists-Quiet : Quiet p (list_buckets env)
    unfolding list_buckets
    lists-Quiet = record { at = λ h. count-cons _ _ h (ignores.0 _) }

    pub config_is_referenced-Quiet : Quiet p (config_is_referenced env m)
    unfolding config_is_referenced
    config_is_referenced-Quiet =
        Quiet-bind (list_buckets env) (config_after_buckets env m) lists-Quiet after_buckets-Quiet
