-- ===== src/Gcp/Auths/Bound.antt =====
-- What the authentications of internal/cloud/gcp/principal_api.go for workload identity leave of the
-- roles on the service account.
use vedro.Prelude.{
  String, Bool, true, false, ◌||◌, ◌==◌, ◌≡◌, refl, ap, ◌∙◌, Option, none, some, List, arith,
  eq_iff,
}
use vedro.Errors.{Error, Result, ok, err}
use vedro.Api.Meta.{NamespacedName, auth_method_workload_identity, auth_method_static_credentials}
use vedro.Cloud.{PrincipalAuthSetup, PrincipalAuthResult}
use vedro.Gcp.Iam.{Binding, IamPolicy, IamClient, IamCall, get_policy}
use vedro.Gcp.Bindings.{has_member, resource_of, found_member, has_binding}
use vedro.Gcp.Bindings.Pairs.{is_pair}
use vedro.Gcp.Bindings.Held.{KeepsPolicies, grant_binding-holds}
use vedro.Gcp.Auths.{
  workload_identity_role, email_of, binding_got, get_bound, binding_granted, member_of,
  create_bound, create_principal_auth,
}

module _ (stored : List IamCall → String → List Binding) where
  -- Between two histories, the credentials of a result got the role for workload identity on the
  -- account of a setup, and nothing else changed there.
  abbrev pub IsBound :
      PrincipalAuthSetup → PrincipalAuthResult → List IamCall → List IamCall → Type 0
  IsBound setup result h h' =
      (r m : String)
      → has_member r m (stored h' (resource_of (email_of setup))) ≡ (
          has_member r m (stored h (resource_of (email_of setup)))
          || is_pair workload_identity_role result.credentials_id r m)

module _ (client : IamClient) (project : String) (stored : List IamCall → String → List Binding)
    (keeps : KeepsPolicies client stored) where
  pub granted-IsBound :
      (setup : PrincipalAuthSetup) (k8s : NamespacedName) (result : PrincipalAuthResult)
      (h h' : List IamCall) (answer : Option Error)
      → (answer ≡ none
          → (r m : String)
          → has_member r m (stored h' (resource_of (email_of setup))) ≡ (
              has_member r m (stored h (resource_of (email_of setup)))
              || is_pair workload_identity_role (member_of client project k8s) r m))
      → binding_granted client setup k8s (member_of client project k8s) answer ≡ ok result
      → IsBound stored setup result h h'
  granted-IsBound setup k8s result h h' none granted done =
      let named : member_of client project k8s ≡ result.credentials_id = cc done in
      λ r m.
        granted refl r m
        ∙ ap
            (λ c.
              has_member r m (stored h (resource_of (email_of setup)))
              || is_pair workload_identity_role c r m)
            named
  granted-IsBound setup k8s result h h' (some e) granted done = cc done

  pub create_bound-IsBound :
      (setup : PrincipalAuthSetup) (k8s : Option NamespacedName) (result : PrincipalAuthResult)
      (h : List IamCall)
      → (create_bound client project setup k8s h).0 ≡ ok result
      → IsBound stored setup result h (create_bound client project setup k8s h).1
  unfolding create_bound
  create_bound-IsBound setup none result h done = cc done
  create_bound-IsBound setup (some k8s) result h done =
      granted-IsBound setup k8s result h _ _
        (grant_binding-holds client stored keeps (email_of setup) workload_identity_role
          (member_of client project k8s) h)
        done

  pub create_principal_auth-IsBound :
      (setup : PrincipalAuthSetup) (result : PrincipalAuthResult) (h : List IamCall)
      → (setup.method == auth_method_static_credentials) ≡ false
      → (setup.method == auth_method_workload_identity) ≡ true
      → (create_principal_auth client project setup h).0 ≡ ok result
      → IsBound stored setup result h (create_principal_auth client project setup h).1
  unfolding create_principal_auth
  create_principal_auth-IsBound setup result h other method done =
      rw (other, method)
        (create_bound-IsBound setup setup.k8s_service_account result h (rw (other, method) at done))

  pub get_bound-stored :
      (setup : PrincipalAuthSetup) (k8s : Option NamespacedName) (h : List IamCall) (n : String)
      → stored (get_bound client setup k8s h).1 n ≡ stored h n
  unfolding get_bound has_binding get_policy
  get_bound-stored setup none h n = refl
  get_bound-stored setup (some k8s) h n = keeps.asks h _ n _

  pub had_already :
      (id r m : String) (bs : List Binding)
      → has_member workload_identity_role id bs ≡ true
      → has_member r m bs ≡ (has_member r m bs || is_pair workload_identity_role id r m)
  had_already id r m bs had = ground (arith, eq_iff workload_identity_role r, eq_iff id m, had)

  pub found-IsBound :
      (setup : PrincipalAuthSetup) (k8s : NamespacedName) (result : PrincipalAuthResult)
      (h : List IamCall) (p : IamPolicy) (had : Bool)
      → stored h (resource_of (email_of setup)) ≡ p.bindings
      → has_member workload_identity_role setup.credentials_id p.bindings ≡ had
      → binding_got client setup k8s (ok had) ≡ ok result
      → IsBound stored setup result h h
  found-IsBound setup k8s result h p true same had done =
      let named : setup.credentials_id ≡ result.credentials_id = cc done in
      λ r m. rw same (
        had_already setup.credentials_id r m p.bindings had
        ∙ ap (λ c. has_member r m p.bindings || is_pair workload_identity_role c r m) named)
  found-IsBound setup k8s result h p false same had done = cc done

  pub got-IsBound :
      (setup : PrincipalAuthSetup) (k8s : NamespacedName) (result : PrincipalAuthResult)
      (h : List IamCall) (answer : Result IamPolicy)
      → client.get_policy h (resource_of (email_of setup)) ≡ answer
      → binding_got client setup k8s
          (found_member client (email_of setup) workload_identity_role setup.credentials_id answer)
        ≡ ok result
      → IsBound stored setup result h h
  got-IsBound setup k8s result h (ok p) same done =
      found-IsBound setup k8s result h p _ (keeps.tells h _ p same) refl done
  got-IsBound setup k8s result h (err e) same done = cc done

  pub after_asking :
      (setup : PrincipalAuthSetup) (result : PrincipalAuthResult) (h h' : List IamCall)
      → stored h' (resource_of (email_of setup)) ≡ stored h (resource_of (email_of setup))
      → IsBound stored setup result h h
      → IsBound stored setup result h h'
  after_asking setup result h h' same bound r m = ap (has_member r m) same ∙ bound r m

  pub get_bound-IsBound :
      (setup : PrincipalAuthSetup) (k8s : Option NamespacedName) (result : PrincipalAuthResult)
      (h : List IamCall)
      → (get_bound client setup k8s h).0 ≡ ok result
      → IsBound stored setup result h (get_bound client setup k8s h).1
  unfolding get_bound has_binding get_policy
  get_bound-IsBound setup none result h done = cc done
  get_bound-IsBound setup (some k8s) result h done =
      after_asking setup result h _ (keeps.asks h _ _ _)
        (got-IsBound setup k8s result h _ refl done)

  pub asked_before :
      (setup : PrincipalAuthSetup) (result : PrincipalAuthResult) (h h' h'' : List IamCall)
      → stored h' (resource_of (email_of setup)) ≡ stored h (resource_of (email_of setup))
      → IsBound stored setup result h' h''
      → IsBound stored setup result h h''
  asked_before setup result h h' h'' same bound r m =
      bound r m
      ∙ ap (λ bs. has_member r m bs || is_pair workload_identity_role result.credentials_id r m)
          same
