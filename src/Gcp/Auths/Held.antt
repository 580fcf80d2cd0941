-- ===== src/Gcp/Auths/Held.antt =====
-- What `EnsureAuthentication` of internal/cloud/gcp/principal_auth.go leaves of the roles on the
-- service account.
use vedro.Prelude.{
  ℕ, String, true, false, ◌==◌, ◌≡◌, refl, Option, none, some, List, Bool-cases, inl, inr,
}
use vedro.Errors.{Result, ok, err, is_error, auth_not_found}
use vedro.UsagePolicy.{Outcome, returns, panics}
use vedro.Api.Meta.{NamespacedName, auth_method_workload_identity, auth_method_static_credentials}
use vedro.Api.Principal.{CloudPrincipal, CloudPrincipalAuth, CloudPrincipalAuthProperties}
use vedro.Cloud.{PrincipalAuthSetup, PrincipalAuthResult}
use vedro.Gcp.Iam.{Binding, IamClient, IamCall}
use vedro.Gcp.Bindings.{resource_of}
use vedro.Gcp.Bindings.Held.{KeepsPolicies}
use vedro.Gcp.Auths.{email_of, get_bound, get_principal_auth}
use vedro.Gcp.Auths.Bound.{
  IsBound, create_principal_auth-IsBound, get_bound-stored, get_bound-IsBound, asked_before,
}
use vedro.Gcp.Auths.Ensure.{
  auth_setup, creation_wrapped, auth_got, ensure_setup, ensure_for, k8s_account_of,
  ensure_authentication, within_grace_period,
}

module _ (client : IamClient) (project : String) (now : List IamCall → ℕ)
    (stored : List IamCall → String → List Binding) (keeps : KeepsPolicies client stored) where
  no_grace :
      (setup : PrincipalAuthSetup) (applied : Option CloudPrincipalAuthProperties)
      (h : List IamCall)
      → (setup.method == auth_method_static_credentials) ≡ false
      → within_grace_period client project now setup applied h ≡ false
  no_grace setup none h other = refl
  no_grace setup (some a) h other = rw other refl

  auth_got-IsBound :
      (setup : PrincipalAuthSetup) (applied : Option CloudPrincipalAuthProperties)
      (result : PrincipalAuthResult) (h h' : List IamCall) (got : Result PrincipalAuthResult)
      → (setup.method == auth_method_static_credentials) ≡ false
      → (setup.method == auth_method_workload_identity) ≡ true
      → stored h' (resource_of (email_of setup)) ≡ stored h (resource_of (email_of setup))
      → (got ≡ ok result → IsBound stored setup result h h')
      → (auth_got client project now setup applied got h').0 ≡ ok result
      → IsBound stored setup result h (auth_got client project now setup applied got h').1
  unfolding auth_got
  auth_got-IsBound setup applied result h h' (ok r) other method same there done = there done
  auth_got-IsBound setup applied result h h' (err e) other method same there done =
      elim (Bool-cases (is_error e auth_not_found)) [
        | inl gone ↦
            let late = no_grace setup applied h' other in
            rw (gone, late)
              (asked_before client project stored keeps setup result h h' _ same (
                create_principal_auth-IsBound client project stored keeps setup result h' other
                  method (rw (gone, late) at done)))
        | inr found ↦ absurd (cc (rw found at done))
      ]

  get_principal_auth-bound :
      (setup : PrincipalAuthSetup) (h : List IamCall)
      → (setup.method == auth_method_static_credentials) ≡ false
      → (setup.method == auth_method_workload_identity) ≡ true
      → get_principal_auth client setup h ≡ get_bound client setup setup.k8s_service_account h
  unfolding get_principal_auth
  get_principal_auth-bound setup h other method = rw (other, method) refl

  creation-ok :
      (answer : Result PrincipalAuthResult) (result : PrincipalAuthResult)
      → creation_wrapped answer ≡ ok result
      → answer ≡ ok result
  creation-ok (ok r) result done = done
  creation-ok (err e) result done = cc done

  ensure_setup-IsBound :
      (setup : PrincipalAuthSetup) (applied : Option CloudPrincipalAuthProperties)
      (result : PrincipalAuthResult) (h : List IamCall)
      → (setup.method == auth_method_static_credentials) ≡ false
      → (setup.method == auth_method_workload_identity) ≡ true
      → (ensure_setup client project now setup applied h).0 ≡ ok result
      → IsBound stored setup result h (ensure_setup client project now setup applied h).1
  unfolding ensure_setup
  ensure_setup-IsBound setup applied result h other method done =
      let k8s = setup.k8s_service_account in
      let get = get_principal_auth-bound setup h other method in
      elim (Bool-cases (setup.credentials_id == "")) [
        | inl unset ↦ rw unset (
            create_principal_auth-IsBound client project stored keeps setup result h other method
              (creation-ok _ result (rw unset at done)))
        | inr set ↦
            rw (set, get)
              (auth_got-IsBound setup applied result h _ _ other method
                (get_bound-stored client project stored keeps setup k8s h _)
                (get_bound-IsBound client project stored keeps setup k8s result h)
                (rw (set, get) at done))
      ]

  ensure_for-IsBound :
      (auth : CloudPrincipalAuth) (principal : CloudPrincipal) (result : PrincipalAuthResult)
      (h : List IamCall) (k8s : Outcome (Option NamespacedName))
      → auth.spec.method ≡ auth_method_workload_identity
      → (ensure_for client project now auth principal k8s h).0 ≡ returns (ok result)
      → IsBound stored
          (auth_setup auth principal none)
          result
          h
          (ensure_for client project now auth principal k8s h).1
  ensure_for-IsBound auth principal result h panics method done = cc done
  ensure_for-IsBound auth principal result h (returns k8s) method done =
      ensure_setup-IsBound (auth_setup auth principal k8s) auth.status.applied result h
        (rw method refl) (rw method refl) (cc done)

  -- When `EnsureAuthentication` for workload identity returns a result, the credentials that it names
  -- have the role for workload identity on the service account of the principal, and nothing else has
  -- changed in who holds what there.
  pub ensure_authentication-IsBound :
      (auth : CloudPrincipalAuth) (principal : CloudPrincipal) (result : PrincipalAuthResult)
      (h : List IamCall)
      → auth.spec.method ≡ auth_method_workload_identity
      → (ensure_authentication client project now auth principal h).0 ≡ returns (ok result)
      → IsBound stored
          (auth_setup auth principal none)
          result
          h
          (ensure_authentication client project now auth principal h).1
  unfolding ensure_authentication
  ensure_authentication-IsBound auth principal result h method done =
      ensure_for-IsBound auth principal result h (k8s_account_of auth) method done
