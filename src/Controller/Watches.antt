-- ===== src/Controller/Watches.antt =====
-- The functions of internal/controller that map a watched object to the resources to reconcile.
-- A watched object of another kind, which the types of the watches exclude, is not modelled.
pub mod Requests
use vedro.Prelude.{
  Bool, true, List, [], ◌∷◌, ◌++◌, if◌then◌else◌, String, ◌==◌, ◌||◌, Option, none, some, ◌⧺◌,
}
use vedro.Errors.{Result, ok, err}
use vedro.Api.Meta.{ObjectMeta, NamespacedName}
use vedro.Api.Provider.{ProviderConfig}
use vedro.Api.Bucket.{Bucket}
use vedro.Api.Access.{BucketAccess}
use vedro.Api.Principal.{CloudPrincipal, CloudPrincipalAuth}
use vedro.Kube.{
  list_buckets, list_accesses, list_principals, list_auths, bucket_refers_to_config,
  principal_refers_to_config, access_refers_to_bucket, access_refers_to_principal,
  auth_refers_to_principal,
}
use vedro.Kube.Events.{M, ◌>>=◌, pure, config_list_with, auth_list_with}
use vedro.Kube.Environment.{Env}

-- `types.NamespacedName{Name: obj.Name, Namespace: obj.Namespace}`.
abbrev pub name_of : ObjectMeta → NamespacedName
name_of m = record { name = m.name; namespace = m.namespace }

-- The loop that collects the requests of the items that refer to the watched object.
unfoldable pub requests_of :
    {A : Type 0} → (A → ObjectMeta) → (A → Bool) → List A → List NamespacedName
requests_of metadata refers [] = []
requests_of metadata refers (x ∷ xs) =
    let rest = requests_of metadata refers xs in
    if refers x then name_of (metadata x) ∷ rest else rest

-- Without the list there is no request; the error is logged.
unfoldable pub listed_requests :
    {A : Type 0} → (A → ObjectMeta) → (A → Bool) → Result (List A) → List NamespacedName
unfolding requests_of
listed_requests metadata refers (err e) = []
listed_requests metadata refers (ok xs) = requests_of metadata refers xs

-- The loop that collects the requests of another mapping at each item that refers to the object.
unfoldable pub collect :
    {A : Type 0} → (A → Bool) → (A → M (List NamespacedName)) → List A → M (List NamespacedName)
collect refers requests [] = pure []
collect refers requests (x ∷ xs) =
    let rest = collect refers requests xs in
    if refers x then (do first ← requests x; others ← rest; pure (first ++ others)) else rest

unfoldable pub collect_listed :
    {A : Type 0}
    → (A → Bool)
    → (A → M (List NamespacedName))
    → Result (List A)
    → M (List NamespacedName)
unfolding collect
collect_listed refers requests (err e) = pure []
collect_listed refers requests (ok xs) = collect refers requests xs

module _ (env : Env) where
  -- `findBucketsOfProviderConfig`.
  unfoldable pub find_buckets_of_config : ProviderConfig → M (List NamespacedName)
  unfolding list_buckets listed_requests
  find_buckets_of_config c = do
    buckets ← list_buckets env
    pure (listed_requests (λ b. b.metadata) (bucket_refers_to_config c.metadata) buckets)

  -- `findCloudPrincipalsOfProviderConfig`.
  unfoldable pub find_principals_of_config : ProviderConfig → M (List NamespacedName)
  unfolding list_principals listed_requests
  find_principals_of_config c = do
    principals ← list_principals env
    pure (listed_requests (λ p. p.metadata) (principal_refers_to_config c.metadata) principals)

  -- `findBucketAccessOfBucket`.
  unfoldable pub find_accesses_of_bucket : Bucket → M (List NamespacedName)
  unfolding list_accesses listed_requests
  find_accesses_of_bucket b = do
    accesses ← list_accesses env
    pure (listed_requests (λ a. a.metadata) (access_refers_to_bucket b.metadata) accesses)

  -- `findBucketAccessOfPrincipal`.
  unfoldable pub find_accesses_of_principal : CloudPrincipal → M (List NamespacedName)
  unfolding list_accesses listed_requests
  find_accesses_of_principal p = do
    accesses ← list_accesses env
    pure (listed_requests (λ a. a.metadata) (access_refers_to_principal p.metadata) accesses)

  -- `findBucketAccessOfProviderConfig`: through the buckets.
  unfoldable pub find_accesses_of_config : ProviderConfig → M (List NamespacedName)
  unfolding list_buckets collect_listed find_accesses_of_bucket
  find_accesses_of_config c = do
    buckets ← list_buckets env
    collect_listed (bucket_refers_to_config c.metadata) find_accesses_of_bucket buckets

  -- `findCloudPrincipalAuthsOfCloudPrincipal`.
  unfoldable pub find_auths_of_principal : CloudPrincipal → M (List NamespacedName)
  unfolding list_auths listed_requests
  find_auths_of_principal p = do
    auths ← list_auths env
    pure (listed_requests (λ a. a.metadata) (auth_refers_to_principal p.metadata) auths)

  -- `findCloudPrincipalAuthsOfProviderConfig`: through the principals.
  unfoldable pub find_auths_of_config : ProviderConfig → M (List NamespacedName)
  unfolding list_principals collect_listed find_auths_of_principal
  find_auths_of_config c = do
    principals ← list_principals env
    collect_listed (principal_refers_to_config c.metadata) find_auths_of_principal principals

-- The index of the ProviderConfigs by the secret that holds their credentials.
unfoldable pub secret_index : Env → ProviderConfig → List String
secret_index env c = elim c.spec.credentials_secret_ref [
  | none ↦ []
  | some ref ↦ if ref.name == "" then [] else env.print_name ref ∷ []
]

-- The index of the authentications by the service account of a workload identity.
unfoldable pub service_account_index : CloudPrincipalAuth → List String
service_account_index auth = elim auth.spec.workload_identity [
  | none ↦ []
  | some identity ↦
      (if identity.service_account_ref.name == ""
        then []
        else identity.service_account_ref.name ∷ [])
]

module _ (env : Env) where
  -- `findProviderConfigsOfSecret`, of the name of the secret.
  unfoldable pub find_configs_of_secret : NamespacedName → M (List NamespacedName)
  unfolding listed_requests
  find_configs_of_secret secret h =
      let key = env.print_name secret in
      let answer = env.list_configs_with h key in
      (listed_requests (λ c. c.metadata) (λ c. true) answer, config_list_with key answer ∷ h)

  -- `findCloudPrincipalAuthsOfServiceAccount`, of the name of the service account.
  unfoldable pub find_auths_of_service_account : NamespacedName → M (List NamespacedName)
  unfolding listed_requests
  find_auths_of_service_account account h =
      let answer = env.list_auths_with h account.namespace account.name in
      (
        listed_requests (λ a. a.metadata) (λ a. true) answer,
        auth_list_with account.namespace account.name answer ∷ h,
      )
