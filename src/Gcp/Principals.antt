-- ===== src/Gcp/Principals.antt =====
-- internal/cloud/gcp/principal.go, and the principals of principal_api.go and helpers.go beneath it.
pub mod Ensured
use vedro.Prelude.{
  ℕ, String, Bool, true, false, not, ◌&&◌, ◌||◌, ◌==◌, ◌⧺◌, leb, eqb, codes, length, Option, none,
  some, List, [], ◌∷◌, if◌then◌else◌,
}
use vedro.Errors.{Error, Result, ok, err, plain, sentinel, wrap, is_error, principal_not_found}
use vedro.Api.Principal.{
  CloudPrincipal, PrincipalKind, kind_service_account, kind_user, kind_group, kind_all_users,
  policy_managed, policy_reference,
}
use vedro.Cloud.{PrincipalAttrs, PrincipalSetup}
use vedro.Helpers.{principal_name_from_cr, principal_name_for_delete}
use vedro.Validation.{
  ValidationResult, valid, invalid, validate_principal_all_users, validate_name_immutability,
}
use vedro.Validation.Patterns.{lower_or_digit, matches_email}
use vedro.Gcp.Specs.{and_valid}
use vedro.Gcp.Iam.{IamClient, IamCalls, ◌>>=◌, pure, get_account, create_account, delete_account}

-- [a-z0-9-]
unfoldable pub account_inner : ℕ → Bool
account_inner c = lower_or_digit c || eqb c b'-'

-- What follows the first character: inner characters, and [a-z0-9] at the end.
unfoldable pub matches_account_rest : List ℕ → Bool
unfolding account_inner
matches_account_rest [] = false
matches_account_rest (c ∷ []) = lower_or_digit c
matches_account_rest (c ∷ d ∷ cs) = account_inner c && matches_account_rest (d ∷ cs)

-- `gcpServiceAccountNamePattern` is ^[a-z][a-z0-9-]{4,28}[a-z0-9]$
unfoldable pub matches_account : List ℕ → Bool
unfolding matches_account_rest
matches_account [] = false
matches_account (c ∷ cs) =
    leb b'a' c && leb c b'z' && (leb 5 (length cs) && leb (length cs) 29) && matches_account_rest cs

-- `validateGcpServiceAccount`.
unfoldable pub validate_gcp_service_account : CloudPrincipal → ValidationResult
unfolding matches_account
validate_gcp_service_account p =
    let name = principal_name_from_cr p in
    if not (p.spec.kind == kind_service_account)
    then valid
    else if p.spec.management_policy == policy_managed && not (matches_account (codes name))
    then invalid
        "Managed serviceAccount name must be 6-30 characters, contain only lowercase letters, numbers, and dashes, start with a letter, and end with a letter or number. Example: some-sa"
    else if p.spec.management_policy == policy_reference && not (matches_email (codes name))
    then invalid
        "Referenced serviceAccount names must be valid email addresses without the serviceAccount: prefix. Example: some-sa@some-project.iam.gserviceaccount.com"
    else valid

-- `validateGcpUserAndGroup`.
unfoldable pub validate_gcp_user_and_group : CloudPrincipal → ValidationResult
validate_gcp_user_and_group p =
    if not (p.spec.kind == kind_group) && not (p.spec.kind == kind_user)
    then valid
    else if not (matches_email (codes (principal_name_from_cr p)))
    then invalid (
        p.spec.kind
        ⧺ " names must be valid email addresses without the GCP IAM prefix. Example: user@example.com")
    else valid

-- `Principal.ValidatePrincipalSpec`.
unfoldable pub validate_principal_spec : CloudPrincipal → ValidationResult
unfolding validate_gcp_service_account validate_gcp_user_and_group
validate_principal_spec p =
    let name = principal_name_from_cr p in
    let named =
      if p.spec.management_policy == policy_managed
      then validate_name_immutability name p.status.external_name name
      else valid in
    if p.spec.kind == kind_all_users
    then validate_principal_all_users p
    else and_valid named (
        and_valid (validate_gcp_service_account p)
          (and_valid (validate_gcp_user_and_group p) valid))

-- `saEmailAndFullName`.
abbrev pub account_email : String → String → String
account_email name project = name ⧺ "@" ⧺ project ⧺ ".iam.gserviceaccount.com"

abbrev pub account_full_name : String → String → String
account_full_name name project =
    "projects/" ⧺ project ⧺ "/serviceAccounts/" ⧺ account_email name project

abbrev pub attrs_with_id : PrincipalSetup → String → PrincipalAttrs
attrs_with_id setup id = record {
  name = setup.name;
  kind = setup.kind;
  policy = setup.policy;
  id = id;
}

-- The `switch` on the kind of a referenced principal in `GetPrincipal`.
unfoldable pub referenced_principal : PrincipalSetup → Result PrincipalAttrs
referenced_principal setup =
    if setup.kind == kind_group
    then ok (attrs_with_id setup ("group:" ⧺ setup.name))
    else if setup.kind == kind_service_account
    then ok (attrs_with_id setup ("serviceAccount:" ⧺ setup.name))
    else if setup.kind == kind_user
    then ok (attrs_with_id setup ("user:" ⧺ setup.name))
    else if setup.kind == kind_all_users
    then ok (attrs_with_id setup "allUsers")
    else err (plain ("unknown principal kind " ⧺ setup.kind))

-- The `PrincipalSetup` of `EnsurePrincipal`.
abbrev pub setup_of : CloudPrincipal → PrincipalSetup
setup_of p = record {
  kind = p.spec.kind;
  name = principal_name_from_cr p;
  policy = p.spec.management_policy;
}

module _ (client : IamClient) (project : String) where
  abbrev pub account_got : PrincipalSetup → Result String → Result PrincipalAttrs
  account_got setup (ok email) = ok (attrs_with_id setup ("serviceAccount:" ⧺ email))
  account_got setup (err e) =
      if client.google_not_found e
      then err (sentinel principal_not_found)
      else err (wrap ("get service account " ⧺ client.quote (account_email setup.name project)) e)

  -- `gcpPrincipalAPI.GetPrincipal`.
  unfoldable pub get_principal : PrincipalSetup → IamCalls (Result PrincipalAttrs)
  unfolding get_account referenced_principal
  get_principal setup =
      if setup.policy == policy_reference then pure (referenced_principal setup) else do
        answer ← get_account client (account_full_name setup.name project)
        pure (account_got setup answer)

  abbrev pub account_created : PrincipalSetup → Result String → Result PrincipalAttrs
  account_created setup (ok email) = ok (attrs_with_id setup ("serviceAccount:" ⧺ email))
  account_created setup (err e) = err (
      wrap
        ("create service account "
          ⧺ client.quote setup.name
          ⧺ " in project "
          ⧺ client.quote project)
        e)

  -- `gcpPrincipalAPI.CreatePrincipal`.
  unfoldable pub create_principal : PrincipalSetup → IamCalls (Result PrincipalAttrs)
  unfolding create_account
  create_principal setup = do
    answer ← create_account client ("projects/" ⧺ project) setup.name
    pure (account_created setup answer)

  abbrev pub account_deleted : PrincipalSetup → Option Error → Option Error
  account_deleted setup none = none
  account_deleted setup (some e) =
      if client.status_not_found e
      then none
      else some
          (wrap ("delete service account " ⧺ client.quote (account_email setup.name project)) e)

  -- `gcpPrincipalAPI.DeletePrincipal`.
  unfoldable pub delete_principal : PrincipalSetup → IamCalls (Option Error)
  unfolding delete_account
  delete_principal setup = do
    answer ← delete_account client (account_full_name setup.name project)
    pure (account_deleted setup answer)

  abbrev pub principal_created : String → Result PrincipalAttrs → Result PrincipalAttrs
  principal_created name (ok attrs) = ok attrs
  principal_created name (err e) = err (wrap ("create principal " ⧺ client.quote name) e)

  -- What follows the `GetPrincipal` of `EnsurePrincipal`.
  unfoldable pub principal_got :
      PrincipalSetup → Result PrincipalAttrs → IamCalls (Result PrincipalAttrs)
  unfolding create_principal
  principal_got setup (ok attrs) = pure (ok attrs)
  principal_got setup (err e) =
      if setup.policy == policy_managed && is_error e principal_not_found
      then (do answer ← create_principal setup; pure (principal_created setup.name answer))
      else pure (err (wrap ("get principal attrs " ⧺ client.quote setup.name) e))

  -- `Principal.EnsurePrincipal`.
  unfoldable pub ensure_principal : CloudPrincipal → IamCalls (Result PrincipalAttrs)
  unfolding get_principal principal_got
  ensure_principal p = do answer ← get_principal (setup_of p); principal_got (setup_of p) answer

  -- `Principal.DeletePrincipal`.
  unfoldable pub delete_cloud_principal : CloudPrincipal → IamCalls (Option Error)
  unfolding delete_principal
  delete_cloud_principal p = delete_principal (record {
    kind = p.spec.kind;
    name = principal_name_for_delete p;
    policy = p.spec.management_policy;
  })
