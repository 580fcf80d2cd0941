-- ===== src/Gcp/Principals/Ensured.antt =====
-- The service account that internal/cloud/gcp/principal.go ensures for a managed principal.
use vedro.Prelude.{
  String, false, ◌≡◌, refl, ◌∙◌, Option, some, List, ◌∷◌, ◌⧺◌, Bool-cases, ◌==◌, ◌&&◌, inl, inr,
}
use vedro.Errors.{Result, ok, err, is_error, principal_not_found}
use vedro.Api.Principal.{CloudPrincipal, policy_managed, policy_reference}
use vedro.Cloud.{PrincipalAttrs, PrincipalSetup}
use vedro.Gcp.Iam.{IamClient, IamCall, account_get, account_create, get_account, create_account}
use vedro.Gcp.Principals.{
  account_full_name, attrs_with_id, account_got, get_principal, account_created, create_principal,
  principal_created, principal_got, setup_of, ensure_principal,
}

-- The server keeps the email of each service account under the full name of the account: an account
-- that is read is there, and one that is created is there from then on.
pub record KeepsAccounts (client : IamClient) (project : String)
    (accounts : List IamCall → String → Option String) : Type 0 where
  pub tells :
      (h : List IamCall) (n e : String) → client.get_account h n ≡ ok e → accounts h n ≡ some e
  pub asks :
      (h : List IamCall) (n k : String) (answer : Result String)
      → accounts (account_get n answer ∷ h) k ≡ accounts h k
  pub creates :
      (h : List IamCall) (id e : String)
      → client.create_account h ("projects/" ⧺ project) id ≡ ok e
      → accounts
          (account_create ("projects/" ⧺ project) id (ok e) ∷ h)
          (account_full_name id project)
        ≡ some e

module _ (client : IamClient) (project : String) (accounts : List IamCall → String → Option String)
    (keeps : KeepsAccounts client project accounts) where
  -- The account of a principal is there, and it is the one that the attributes name.
  abbrev pub IsEnsuredAs : PrincipalSetup → PrincipalAttrs → List IamCall → Type 0
  IsEnsuredAs setup attrs h =
      (email : String) × (accounts h (account_full_name setup.name project) ≡ some email)
      × (attrs ≡ attrs_with_id setup ("serviceAccount:" ⧺ email))

  created-IsEnsuredAs :
      (setup : PrincipalSetup) (attrs : PrincipalAttrs) (h : List IamCall) (answer : Result String)
      → client.create_account h ("projects/" ⧺ project) setup.name ≡ answer
      → principal_created client project setup.name (account_created client project setup answer)
        ≡ ok attrs
      → IsEnsuredAs setup attrs (account_create ("projects/" ⧺ project) setup.name answer ∷ h)
  created-IsEnsuredAs setup attrs h (ok e) same done =
      (e, keeps.creates h setup.name e same, cc done)
  created-IsEnsuredAs setup attrs h (err e) same done = cc done

  account_got-IsEnsuredAs :
      (setup : PrincipalSetup) (attrs : PrincipalAttrs) (h : List IamCall) (answer : Result String)
      → client.get_account h (account_full_name setup.name project) ≡ answer
      → account_got client project setup answer ≡ ok attrs
      → IsEnsuredAs setup attrs (account_get (account_full_name setup.name project) answer ∷ h)
  account_got-IsEnsuredAs setup attrs h (ok e) same done =
      (e, keeps.asks h _ _ (ok e) ∙ keeps.tells h _ e same, cc done)
  account_got-IsEnsuredAs setup attrs h (err e) same done =
      elim (Bool-cases (client.google_not_found e)) [
        | inl held ↦ absurd (cc (rw held at done))
        | inr other ↦ absurd (cc (rw other at done))
      ]

  get_principal-IsEnsuredAs :
      (setup : PrincipalSetup) (attrs : PrincipalAttrs) (h : List IamCall)
      → setup.policy ≡ policy_managed
      → (get_principal client project setup h).0 ≡ ok attrs
      → IsEnsuredAs setup attrs (get_principal client project setup h).1
  unfolding get_principal get_account
  get_principal-IsEnsuredAs setup attrs h managed done =
      let other : (setup.policy == policy_reference) ≡ false = rw managed refl in
      rw other (account_got-IsEnsuredAs setup attrs h _ refl (rw other at done))

  principal_got-IsEnsuredAs :
      (setup : PrincipalSetup) (attrs : PrincipalAttrs) (h : List IamCall)
      (got : Result PrincipalAttrs)
      → (got ≡ ok attrs → IsEnsuredAs setup attrs h)
      → (principal_got client project setup got h).0 ≡ ok attrs
      → IsEnsuredAs setup attrs (principal_got client project setup got h).1
  unfolding principal_got create_principal create_account
  principal_got-IsEnsuredAs setup attrs h (ok a) there done = there done
  principal_got-IsEnsuredAs setup attrs h (err e) there done =
      elim (Bool-cases (setup.policy == policy_managed && is_error e principal_not_found)) [
        | inl held ↦ rw held (created-IsEnsuredAs setup attrs h _ refl (rw held at done))
        | inr other ↦ absurd (cc (rw other at done))
      ]

  -- When `EnsurePrincipal` of a managed principal returns attributes, the service account of its name
  -- is in the project, and the attributes are those of the spec with its email for the member.
  pub ensure_principal-IsEnsuredAs :
      (p : CloudPrincipal) (attrs : PrincipalAttrs) (h : List IamCall)
      → p.spec.management_policy ≡ policy_managed
      → (ensure_principal client project p h).0 ≡ ok attrs
      → IsEnsuredAs (setup_of p) attrs (ensure_principal client project p h).1
  unfolding ensure_principal
  ensure_principal-IsEnsuredAs p attrs h managed done =
      let got = get_principal client project (setup_of p) h in
      principal_got-IsEnsuredAs (setup_of p) attrs got.1 got.0
        (get_principal-IsEnsuredAs (setup_of p) attrs h managed) done
