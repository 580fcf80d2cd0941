-- ===== src/Gcp/Auths/Ensure.antt =====
-- internal/cloud/gcp/principal_auth.go
use vedro.Prelude.{
  ℕ, String, Bool, false, ◌&&◌, ◌==◌, ◌+◌, ltb, Option, none, some, List, if◌then◌else◌,
}
use vedro.Errors.{Error, Result, ok, err, plain, prefixed, is_error, auth_not_found}
use vedro.UsagePolicy.{Outcome, returns, panics}
use vedro.Api.Meta.{NamespacedName, auth_method_static_credentials, auth_method_workload_identity}
use vedro.Api.Principal.{
  CloudPrincipal, CloudPrincipalAuth, CloudPrincipalAuthProperties, WorkloadIdentitySpec,
}
use vedro.Cloud.{PrincipalAuthSetup, PrincipalAuthResult}
use vedro.Gcp.Iam.{IamCall, IamClient, IamCalls, ◌>>=◌, pure}
use vedro.Gcp.Auths.{identified, get_principal_auth, create_principal_auth, delete_principal_auth}

-- `gcpKeyPropagationGracePeriod`, in nanoseconds.
abbrev key_propagation_grace_period : ℕ
key_propagation_grace_period = 60000000000

-- `status.Applied.CredentialsId`, if it is there.
abbrev pub applied_id : Option CloudPrincipalAuthProperties → String
applied_id none = ""
applied_id (some applied) = applied.credentials_id

-- `&vedro.NamespacedName{...}`; the settings of workload identity are read without a test.
abbrev pub k8s_account :
    CloudPrincipalAuth → Option WorkloadIdentitySpec → Outcome (Option NamespacedName)
k8s_account auth none = panics
k8s_account auth (some w) =
    returns
      (some (record { name = w.service_account_ref.name; namespace = auth.metadata.namespace }))

abbrev pub k8s_account_of : CloudPrincipalAuth → Outcome (Option NamespacedName)
k8s_account_of auth =
    if auth.spec.method == auth_method_workload_identity
    then k8s_account auth auth.spec.workload_identity
    else returns none

-- The `authSetup` of `EnsureAuthentication`.
abbrev pub auth_setup :
    CloudPrincipalAuth → CloudPrincipal → Option NamespacedName → PrincipalAuthSetup
auth_setup auth principal k8s = record {
  method = auth.spec.method;
  service_account_id = principal.status.external_id;
  credentials_id = applied_id auth.status.applied;
  k8s_service_account = k8s;
}

abbrev pub creation_wrapped : Result PrincipalAuthResult → Result PrincipalAuthResult
creation_wrapped (ok result) = ok result
creation_wrapped (err e) = err (prefixed "create auth failed " e)

module _ (client : IamClient) (project : String) (now : List IamCall → ℕ) where
  -- `withinGracePeriod`: less than the period has passed since the creation, or none has.
  abbrev pub within_grace_period :
      PrincipalAuthSetup → Option CloudPrincipalAuthProperties → List IamCall → Bool
  within_grace_period setup none h = false
  within_grace_period setup (some applied) h =
      setup.method == auth_method_static_credentials
      && ltb (now h) (applied.created_at + key_propagation_grace_period)

  -- What follows the `GetPrincipalAuth` of `EnsureAuthentication`.
  unfoldable pub auth_got :
      PrincipalAuthSetup
      → Option CloudPrincipalAuthProperties
      → Result PrincipalAuthResult
      → IamCalls (Result PrincipalAuthResult)
  unfolding create_principal_auth
  auth_got setup applied (ok result) h = (ok result, h)
  auth_got setup applied (err e) h =
      if is_error e auth_not_found
      then (if within_grace_period setup applied h
            then pure (ok (identified setup setup.credentials_id))
            else create_principal_auth client project setup)
          h
      else (err (prefixed "create auth failed " e), h)

  -- `EnsureAuthentication` once its setup is made.
  unfoldable pub ensure_setup :
      PrincipalAuthSetup
      → Option CloudPrincipalAuthProperties
      → IamCalls (Result PrincipalAuthResult)
  unfolding create_principal_auth get_principal_auth auth_got
  ensure_setup setup applied =
      if setup.credentials_id == ""
      then (do answer ← create_principal_auth client project setup; pure (creation_wrapped answer))
      else (do answer ← get_principal_auth client setup; auth_got setup applied answer)

  abbrev pub ensure_for :
      CloudPrincipalAuth
      → CloudPrincipal
      → Outcome (Option NamespacedName)
      → IamCalls (Outcome (Result PrincipalAuthResult))
  ensure_for auth principal panics = pure panics
  ensure_for auth principal (returns k8s) = do
    answer ← ensure_setup (auth_setup auth principal k8s) auth.status.applied
    pure (returns answer)

  -- `PrincipalAuth.EnsureAuthentication`.
  unfoldable pub ensure_authentication :
      CloudPrincipalAuth → CloudPrincipal → IamCalls (Outcome (Result PrincipalAuthResult))
  unfolding ensure_setup
  ensure_authentication auth principal = ensure_for auth principal (k8s_account_of auth)

module _ (client : IamClient) where
  abbrev pub delete_recorded : Option CloudPrincipalAuthProperties → IamCalls (Option Error)
  delete_recorded none = pure (some (plain "no credentialsId in CloudPrincipalAuth.Status"))
  delete_recorded (some applied) =
      if applied.credentials_id == ""
      then pure (some (plain "no credentialsId in CloudPrincipalAuth.Status"))
      else delete_principal_auth client (record {
        method = applied.method;
        service_account_id = applied.principal_id;
        credentials_id = applied.credentials_id;
        k8s_service_account = none;
      })

  -- `PrincipalAuth.DeleteAuthentication`.
  unfoldable pub delete_authentication : CloudPrincipalAuth → IamCalls (Option Error)
  unfolding delete_principal_auth
  delete_authentication auth = delete_recorded auth.status.applied
