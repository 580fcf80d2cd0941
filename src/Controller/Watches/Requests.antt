-- ===== src/Controller/Watches/Requests.antt =====
-- Which resources the mappings of internal/controller request.
use vedro.Prelude.{
  Bool, ◌≡◌, refl, ◌&&◌, ◌||◌, ◌==◌, List, [], ◌∷◌, ◌++◌, arith, Bool-cases, inl, inr,
}
use vedro.Errors.{ok}
use vedro.Api.Meta.{ObjectMeta, NamespacedName}
use vedro.Api.Provider.{ProviderConfig}
use vedro.Api.Bucket.{Bucket}
use vedro.Api.Access.{BucketAccess}
use vedro.Api.Principal.{CloudPrincipal, CloudPrincipalAuth}
use vedro.Kube.{
  any, bucket_refers_to_config, principal_refers_to_config, access_refers_to_bucket,
  auth_refers_to_principal, list_buckets, list_principals, list_accesses, list_auths,
}
use vedro.Kube.Events.{History, M, bucket_list, principal_list}
use vedro.Kube.Environment.{Env}
use vedro.Controller.Watches.{
  name_of, requests_of, listed_requests, collect, collect_listed, find_accesses_of_bucket,
  find_accesses_of_config, find_auths_of_principal, find_auths_of_config,
}

-- The name is among the requests.
abbrev pub is_name : NamespacedName → NamespacedName → Bool
is_name n m = n.name == m.name && n.namespace == m.namespace

any-append :
    {A : Type 0} (p : A → Bool) (xs ys : List A) → any p (xs ++ ys) ≡ (any p xs || any p ys)
unfolding any
any-append p [] ys = refl
any-append p (x ∷ xs) ys = ground (arith, any-append p xs ys)

any-requests_of :
    {A : Type 0} (q : NamespacedName → Bool) (metadata : A → ObjectMeta) (refers : A → Bool)
    (xs : List A)
    → any q (requests_of metadata refers xs) ≡ any (λ x. refers x && q (name_of (metadata x))) xs
unfolding any requests_of
any-requests_of q metadata refers [] = refl
any-requests_of q metadata refers (x ∷ xs) = ground (arith, any-requests_of q metadata refers xs)

module _ (env : Env) (n : NamespacedName) where
  accesses_of_bucket :
      (accesses : List BucketAccess)
      → ((h : History) → env.list_accesses h ≡ ok accesses)
      → (b : Bucket) (h : History)
      → any (is_name n) (find_accesses_of_bucket env b h).0
        ≡ any (λ a. access_refers_to_bucket b.metadata a && is_name n (name_of a.metadata)) accesses
  unfolding find_accesses_of_bucket list_accesses listed_requests
  accesses_of_bucket accesses same b h =
      rw (same h) (
        any-requests_of (is_name n) (λ a. a.metadata) (access_refers_to_bucket b.metadata) accesses)

  auths_of_principal :
      (auths : List CloudPrincipalAuth)
      → ((h : History) → env.list_auths h ≡ ok auths)
      → (p : CloudPrincipal) (h : History)
      → any (is_name n) (find_auths_of_principal env p h).0
        ≡ any (λ a. auth_refers_to_principal p.metadata a && is_name n (name_of a.metadata)) auths
  unfolding find_auths_of_principal list_auths listed_requests
  auths_of_principal auths same p h =
      rw (same h)
        (any-requests_of (is_name n) (λ a. a.metadata) (auth_refers_to_principal p.metadata) auths)

-- If each call gives the same answer, the collected requests are those of the items.
any-collect :
    {A : Type 0} (q : NamespacedName → Bool) (refers : A → Bool)
    (requests : A → M (List NamespacedName)) (wanted : A → Bool)
    → ((x : A) (h : History) → any q (requests x h).0 ≡ wanted x)
    → (xs : List A) (h : History)
    → any q (collect refers requests xs h).0 ≡ any (λ x. refers x && wanted x) xs
unfolding any collect
any-collect q refers requests wanted each [] h = refl
any-collect q refers requests wanted each (x ∷ xs) h =
    let (first, h') = requests x h in
    let others = (collect refers requests xs h').0 in
    elim (Bool-cases (refers x)) [
      | inl b ↦ rw b (
          ground (
            arith,
            any-append q first others,
            each x h,
            any-collect q refers requests wanted each xs h',
          ))
      | inr b ↦ rw b (any-collect q refers requests wanted each xs h)
    ]

module _ (env : Env) (c : ProviderConfig) (n : NamespacedName) (h : History) where
  -- With a server that always lists the same accesses, a change of a ProviderConfig requests the
  -- reconciliation of exactly the accesses that refer to a bucket that refers to the ProviderConfig.
  pub find_accesses_of_config-requests :
      (buckets : List Bucket) (accesses : List BucketAccess)
      → env.list_buckets h ≡ ok buckets
      → ((h' : History) → env.list_accesses h' ≡ ok accesses)
      → any (is_name n) (find_accesses_of_config env c h).0
        ≡ any
            (λ b.
              bucket_refers_to_config c.metadata b
              && any
                  (λ a. access_refers_to_bucket b.metadata a && is_name n (name_of a.metadata))
                  accesses)
            buckets
  unfolding find_accesses_of_config list_buckets collect_listed
  find_accesses_of_config-requests buckets accesses listed same = rw listed (
      any-collect (is_name n) (bucket_refers_to_config c.metadata) (find_accesses_of_bucket env) _
        (accesses_of_bucket env n accesses same) buckets (bucket_list (ok buckets) ∷ h))

  -- With a server that always lists the same authentications, a change of a ProviderConfig requests
  -- the reconciliation of exactly those that refer to a principal that refers to the ProviderConfig.
  pub find_auths_of_config-requests :
      (principals : List CloudPrincipal) (auths : List CloudPrincipalAuth)
      → env.list_principals h ≡ ok principals
      → ((h' : History) → env.list_auths h' ≡ ok auths)
      → any (is_name n) (find_auths_of_config env c h).0
        ≡ any
            (λ p.
              principal_refers_to_config c.metadata p
              && any
                  (λ a. auth_refers_to_principal p.metadata a && is_name n (name_of a.metadata))
                  auths)
            principals
  unfolding find_auths_of_config list_principals collect_listed
  find_auths_of_config-requests principals auths listed same = rw listed (
      any-collect (is_name n) (principal_refers_to_config c.metadata) (find_auths_of_principal env)
        _ (auths_of_principal env n auths same) principals (principal_list (ok principals) ∷ h))
