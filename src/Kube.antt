-- ===== src/Kube.antt =====
-- The calls of the reconcilers: each asks the environment and writes what it asked and was answered
-- to the history. And the methods of internal/resolvers that call the Kubernetes API.
pub mod Events
pub mod Environment
pub mod Quiet
use vedro.Prelude.{
  String, Bool, true, false, ◌==◌, ◌&&◌, ◌||◌, not, Option, none, some, List, [], ◌∷◌,
  if◌then◌else◌,
}
use vedro.Errors.{Error, Result, ok, err, is_not_found, message}
use vedro.Conditions.{
  Condition, condition_false, type_ready, type_provider_config_ready, reason_bucket_not_found,
  reason_bucket_get_failed, reason_bucket_access_get_failed, reason_cloud_principal_not_found,
  reason_cloud_principal_get_failed, reason_provider_config_not_found,
  reason_provider_config_get_failed,
}
use vedro.Api.Meta.{ObjectMeta, NamespacedName, BucketReference, PrincipalReference}
use vedro.Api.Provider.{ProviderConfig, zero_provider_config}
use vedro.Api.Bucket.{Bucket, zero_bucket}
use vedro.Api.Access.{BucketAccess, zero_bucket_access}
use vedro.Api.Principal.{CloudPrincipal, CloudPrincipalAuth, zero_cloud_principal}
use vedro.Kube.Events.{
  M, ◌>>=◌, pure, bucket_get, bucket_list, access_get, access_list, principal_get, principal_list,
  auth_list, config_get,
}
use vedro.Kube.Environment.{Env}

-- A resolver: the resource, the condition that is reported about it, and the error of `Get`.
pub record Resolver (A : Type 0) : Type 0 where
  pub object : A
  pub condition : Condition
  pub error : Option Error

-- `Condition{Type: type, Status: status}`.
abbrev pub new_condition : String → String → Condition
new_condition type status = record {
  type = type;
  status = status;
  observed_generation = 0;
  last_transition_time = 0;
  reason = "";
  message = "";
}

abbrev get_failure : Condition → Error → String → String → String → Condition
get_failure c e missing text failed =
    if is_not_found e
    then record c { reason = missing; message = text }
    else record c { reason = failed; message = message e }

abbrev resolved : {A : Type 0} → A → Condition → (Error → Condition) → Result A → Resolver A
resolved zero fresh failure (ok a) = record { object = a; condition = fresh; error = none }
resolved zero fresh failure (err e) = record {
  object = zero;
  condition = failure e;
  error = some e;
}

module _ (env : Env) where
  -- `BucketResolver.Resolve`.
  unfoldable pub resolve_bucket : NamespacedName → M (Resolver Bucket)
  resolve_bucket name h =
      let answer = env.get_bucket h name in
      let c = new_condition type_ready condition_false in
      (
        resolved zero_bucket c
            (λ e.
              get_failure c e reason_bucket_not_found "Bucket was not found"
                reason_bucket_get_failed)
            answer,
        bucket_get name answer ∷ h,
      )

  -- `BucketAccessResolver.Resolve`; its reason for a missing access is that of a principal.
  unfoldable pub resolve_access : NamespacedName → M (Resolver BucketAccess)
  resolve_access name h =
      let answer = env.get_access h name in
      let c = new_condition type_ready condition_false in
      (
        resolved zero_bucket_access c
            (λ e.
              get_failure c e reason_cloud_principal_not_found "BucketAccess was not found"
                reason_bucket_access_get_failed)
            answer,
        access_get name answer ∷ h,
      )

  -- `CloudPrincipalResolver.Resolve`.
  unfoldable pub resolve_principal : NamespacedName → M (Resolver CloudPrincipal)
  resolve_principal name h =
      let answer = env.get_principal h name in
      let c = new_condition type_ready condition_false in
      (
        resolved zero_cloud_principal c
            (λ e.
              get_failure c e reason_cloud_principal_not_found "CloudPrincipal was not found"
                reason_cloud_principal_get_failed)
            answer,
        principal_get name answer ∷ h,
      )

  -- `ProviderConfigResolver.Resolve`; the status of its condition is set only on an error.
  unfoldable pub resolve_config : NamespacedName → M (Resolver ProviderConfig)
  resolve_config name h =
      let answer = env.get_config h name in
      (
        resolved zero_provider_config (new_condition type_provider_config_ready "")
            (λ e.
              get_failure (new_condition type_provider_config_ready condition_false) e
                reason_provider_config_not_found "ProviderConfig was not found"
                reason_provider_config_get_failed)
            answer,
        config_get name answer ∷ h,
      )

  unfoldable pub list_buckets : M (Result (List Bucket))
  list_buckets h = let answer = env.list_buckets h in (answer, bucket_list answer ∷ h)

  unfoldable pub list_accesses : M (Result (List BucketAccess))
  list_accesses h = let answer = env.list_accesses h in (answer, access_list answer ∷ h)

  unfoldable pub list_principals : M (Result (List CloudPrincipal))
  list_principals h = let answer = env.list_principals h in (answer, principal_list answer ∷ h)

  unfoldable pub list_auths : M (Result (List CloudPrincipalAuth))
  list_auths h = let answer = env.list_auths h in (answer, auth_list answer ∷ h)

-- Some element of the list passes the test.
unfoldable pub any : {A : Type 0} → (A → Bool) → List A → Bool
any p [] = false
any p (x ∷ xs) = p x || any p xs

-- The loops of the three `IsReferenced`: a reference by name and namespace, or by name.
abbrev pub access_refers_to_bucket : ObjectMeta → BucketAccess → Bool
access_refers_to_bucket m a =
    a.spec.bucket_ref.name == m.name && a.spec.bucket_ref.namespace == m.namespace

abbrev pub access_refers_to_principal : ObjectMeta → BucketAccess → Bool
access_refers_to_principal m a =
    a.spec.principal_ref.name == m.name && a.spec.principal_ref.namespace == m.namespace

abbrev pub auth_refers_to_principal : ObjectMeta → CloudPrincipalAuth → Bool
auth_refers_to_principal m a =
    a.spec.principal_ref.name == m.name && a.spec.principal_ref.namespace == m.namespace

abbrev pub bucket_refers_to_config : ObjectMeta → Bucket → Bool
bucket_refers_to_config m b = b.spec.provider_ref.name == m.name

abbrev pub principal_refers_to_config : ObjectMeta → CloudPrincipal → Bool
principal_refers_to_config m p = p.spec.provider_ref.name == m.name

abbrev pub listed_any : {A : Type 0} → (A → Bool) → Result (List A) → Result Bool
listed_any p (err e) = err e
listed_any p (ok xs) = ok (any p xs)

abbrev pub either_listed :
    {A B : Type 0} → (A → Bool) → (B → Bool) → List A → Result (List B) → Result Bool
either_listed p q xs (err e) = err e
either_listed p q xs (ok ys) = ok (any p xs || any q ys)

module _ (env : Env) where
  -- `BucketResolver.IsReferenced`.
  unfoldable pub bucket_is_referenced : ObjectMeta → M (Result Bool)
  unfolding list_accesses
  bucket_is_referenced m = do
    accesses ← list_accesses env
    pure (listed_any (access_refers_to_bucket m) accesses)

  unfoldable pub principal_after_accesses :
      ObjectMeta → Result (List BucketAccess) → M (Result Bool)
  unfolding list_auths
  principal_after_accesses m (err e) = pure (err e)
  principal_after_accesses m (ok accesses) = do
    auths ← list_auths env
    pure (either_listed (access_refers_to_principal m) (auth_refers_to_principal m) accesses auths)

  -- `CloudPrincipalResolver.IsReferenced`: both lists are read before they are searched.
  unfoldable pub principal_is_referenced : ObjectMeta → M (Result Bool)
  unfolding list_accesses principal_after_accesses
  principal_is_referenced m = do accesses ← list_accesses env; principal_after_accesses m accesses

  unfoldable pub config_after_buckets : ObjectMeta → Result (List Bucket) → M (Result Bool)
  unfolding list_principals
  config_after_buckets m (err e) = pure (err e)
  config_after_buckets m (ok buckets) =
      if any (bucket_refers_to_config m) buckets then pure (ok true) else do
        principals ← list_principals env
        pure (listed_any (principal_refers_to_config m) principals)

  -- `ProviderConfigResolver.IsReferenced`: the principals are read only if no bucket refers to it.
  unfoldable pub config_is_referenced : ObjectMeta → M (Result Bool)
  unfolding list_buckets config_after_buckets
  config_is_referenced m = do buckets ← list_buckets env; config_after_buckets m buckets
