-- ===== src/Gcp/Bindings.antt =====
-- internal/cloud/gcp/helpers.go: the role bindings of a service account.
pub mod Pairs
pub mod Held
use vedro.Prelude.{
  String, Bool, true, false, not, ◌==◌, ◌⧺◌, Option, none, some, List, [], ◌∷◌, ◌++◌, contains,
  is_empty, if◌then◌else◌,
}
use vedro.Errors.{Error, Result, ok, err, wrap}
use vedro.Gcp.Iam.{Binding, IamPolicy, IamClient, IamCalls, ◌>>=◌, pure, get_policy, set_policy}

-- The loop of `hasServiceAccountIAMBinding`.
unfoldable pub has_member : String → String → List Binding → Bool
has_member role member [] = false
has_member role member (b ∷ bs) =
    let rest = has_member role member bs in
    if not (b.role == role) then rest else if contains b.members member then true else rest

abbrev pub cons_granted : Binding → Option (List Binding) → Option (List Binding)
cons_granted b none = none
cons_granted b (some changed) = some (b ∷ changed)

-- The loop of `grantServiceAccountIAMBinding` and what follows it: the bindings to set, or none if
-- the member is in the first binding of the role.
unfoldable pub granted_bindings : String → String → List Binding → Option (List Binding)
granted_bindings role member [] =
    some (record { role = role; members = member ∷ []; condition = none } ∷ [])
granted_bindings role member (b ∷ bs) =
    let rest = granted_bindings role member bs in
    if not (b.role == role)
    then cons_granted b rest
    else if contains b.members member
    then none
    else some (record b { members = b.members ++ (member ∷ []) } ∷ bs)

-- The members without one, the inner loop of `revokeServiceAccountIAMBinding`.
unfoldable pub without_member : String → List String → List String
without_member member [] = []
without_member member (m ∷ ms) =
    let rest = without_member member ms in if m == member then rest else m ∷ rest

-- A binding without members is left out.
abbrev pub keep_binding : Binding → List String → List Binding → List Binding
keep_binding b [] rest = rest
keep_binding b (m ∷ ms) rest = record b { members = m ∷ ms } ∷ rest

-- The loop of `revokeServiceAccountIAMBinding`: the bindings that remain.
unfoldable pub remaining_bindings : String → String → List Binding → List Binding
unfolding without_member
remaining_bindings role member [] = []
remaining_bindings role member (b ∷ bs) =
    let rest = remaining_bindings role member bs in
    if not (b.role == role) then b ∷ rest else keep_binding b (without_member member b.members) rest

abbrev pub resource_of : String → String
resource_of email = "projects/-/serviceAccounts/" ⧺ email

module _ (client : IamClient) where
  abbrev policy_failed : String → Error → Error
  policy_failed email = wrap ("get IAM policy for service account " ⧺ client.quote email)

  abbrev pub found_member : String → String → String → Result IamPolicy → Result Bool
  found_member email role member (err e) = err (policy_failed email e)
  found_member email role member (ok p) = ok (has_member role member p.bindings)

  -- `hasServiceAccountIAMBinding`.
  unfoldable pub has_binding : String → String → String → IamCalls (Result Bool)
  unfolding get_policy has_member
  has_binding email role member = do
    answer ← get_policy client (resource_of email)
    pure (found_member email role member answer)

  abbrev pub policy_was_set : Option Error → Option Error
  policy_was_set none = none
  policy_was_set (some e) = some (wrap "set service account IAM policy" e)

  unfoldable pub set_bindings : String → IamPolicy → List Binding → IamCalls (Option Error)
  unfolding set_policy
  set_bindings email p bs = do
    answer ← set_policy client (resource_of email) (record p { bindings = bs })
    pure (policy_was_set answer)

  unfoldable pub set_granted : String → IamPolicy → Option (List Binding) → IamCalls (Option Error)
  unfolding set_bindings
  set_granted email p none = pure none
  set_granted email p (some bs) = set_bindings email p bs

  unfoldable pub grant_in : String → String → String → Result IamPolicy → IamCalls (Option Error)
  unfolding set_granted granted_bindings
  grant_in email role member (err e) = pure (some (policy_failed email e))
  grant_in email role member (ok p) = set_granted email p (granted_bindings role member p.bindings)

  -- `grantServiceAccountIAMBinding`.
  unfoldable pub grant_binding : String → String → String → IamCalls (Option Error)
  unfolding get_policy grant_in
  grant_binding email role member = do
    answer ← get_policy client (resource_of email)
    grant_in email role member answer

  -- What follows the `GetIamPolicy` of `revokeServiceAccountIAMBinding`; there are changes if the
  -- member was in a binding of the role.
  unfoldable pub revoke_in : String → String → String → Result IamPolicy → IamCalls (Option Error)
  unfolding set_bindings remaining_bindings has_member
  revoke_in email role member (err e) =
      if client.google_not_found e then pure none else pure (some (policy_failed email e))
  revoke_in email role member (ok p) =
      if has_member role member p.bindings
      then set_bindings email p (remaining_bindings role member p.bindings)
      else pure none

  -- `revokeServiceAccountIAMBinding`.
  unfoldable pub revoke_binding : String → String → String → IamCalls (Option Error)
  unfolding get_policy revoke_in
  revoke_binding email role member = do
    answer ← get_policy client (resource_of email)
    revoke_in email role member answer
