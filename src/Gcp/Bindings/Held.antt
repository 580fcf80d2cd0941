-- ===== src/Gcp/Bindings/Held.antt =====
-- Which members hold which roles on a service account after the calls of
-- internal/cloud/gcp/helpers.go.
use vedro.Prelude.{
  String, Bool, true, false, not, ◌&&◌, ◌||◌, ◌≡◌, refl, sym, ap, ◌∙◌, Option, none, some, List, [],
  ◌∷◌, Bool-cases, inl, inr, arith, eq_iff, if◌then◌else◌,
}
use vedro.Errors.{Error, Result, ok, err}
use vedro.Gcp.Iam.{Binding, IamPolicy, IamClient, IamCall, policy_get, policy_set, set_policy, pure}
use vedro.Gcp.Bindings.{
  has_member, granted_bindings, remaining_bindings, resource_of, policy_was_set, set_granted,
  set_bindings, grant_in, grant_binding, revoke_in, revoke_binding,
}
use vedro.Gcp.Bindings.Pairs.{is_pair, has-granted, has-held, has-remaining}

-- The server keeps the bindings of each resource: a policy that is read has them, and they change to
-- those that are set. An account that is not found has none.
pub record KeepsPolicies (client : IamClient) (stored : List IamCall → String → List Binding)
    : Type 0 where
  pub tells :
      (h : List IamCall) (n : String) (p : IamPolicy)
      → client.get_policy h n ≡ ok p
      → stored h n ≡ p.bindings
  pub tells_missing :
      (h : List IamCall) (n : String) (e : Error)
      → client.get_policy h n ≡ err e
      → client.google_not_found e ≡ true
      → stored h n ≡ []
  pub asks :
      (h : List IamCall) (n k : String) (answer : Result IamPolicy)
      → stored (policy_get n answer ∷ h) k ≡ stored h k
  pub sets :
      (h : List IamCall) (n : String) (p : IamPolicy)
      → client.set_policy h n p ≡ none
      → stored (policy_set n p none ∷ h) n ≡ p.bindings

module _ (client : IamClient) (stored : List IamCall → String → List Binding)
    (keeps : KeepsPolicies client stored) (email role member : String) where
  -- Whether a member of the account holds a role, after a history.
  abbrev pub holds : List IamCall → String → String → Bool
  holds h r m = has_member r m (stored h (resource_of email))

  set_answer-stored :
      (p : IamPolicy) (h : List IamCall) (answer : Option Error)
      → client.set_policy h (resource_of email) p ≡ answer
      → policy_was_set client answer ≡ none
      → stored (policy_set (resource_of email) p answer ∷ h) (resource_of email) ≡ p.bindings
  set_answer-stored p h none same done = keeps.sets h (resource_of email) p same
  set_answer-stored p h (some e) same done = cc done

  set_bindings-stored :
      (p : IamPolicy) (bs : List Binding) (h : List IamCall)
      → (set_bindings client email p bs h).0 ≡ none
      → stored (set_bindings client email p bs h).1 (resource_of email) ≡ bs
  unfolding set_bindings set_policy
  set_bindings-stored p bs h done = set_answer-stored (record p { bindings = bs }) h _ refl done

  module _ (r m : String) where
    not_had :
        (bs : List Binding)
        → has_member role member bs ≡ false
        → has_member r m bs ≡ (has_member r m bs && not (is_pair role member r m))
    not_had bs missing = ground (arith, eq_iff role r, eq_iff member m, missing)

    set_granted-holds :
        (p : IamPolicy) (changed : Option (List Binding)) (h : List IamCall)
        → granted_bindings role member p.bindings ≡ changed
        → stored h (resource_of email) ≡ p.bindings
        → (set_granted client email p changed h).0 ≡ none
        → holds (set_granted client email p changed h).1 r m
          ≡ (has_member r m p.bindings || is_pair role member r m)
    unfolding set_granted
    set_granted-holds p none h same before done =
        ap (has_member r m) before ∙ has-held role member r m p.bindings same
    set_granted-holds p (some bs) h same before done =
        ap (has_member r m) (set_bindings-stored p bs h done)
        ∙ has-granted role member r m p.bindings bs same

    grant_in-holds :
        (answer : Result IamPolicy) (h : List IamCall)
        → client.get_policy h (resource_of email) ≡ answer
        → (grant_in client email role member answer (policy_get (resource_of email) answer ∷ h)).0
          ≡ none
        → holds
            (grant_in client email role member answer (policy_get (resource_of email) answer ∷ h)).1
            r
            m
          ≡ (holds h r m || is_pair role member r m)
    unfolding grant_in
    grant_in-holds (err e) h same done = cc done
    grant_in-holds (ok p) h same done =
        let before = keeps.tells h (resource_of email) p same in
        let kept = keeps.asks h (resource_of email) (resource_of email) (ok p) in
        set_granted-holds p (granted_bindings role member p.bindings) _ refl (kept ∙ before) done
        ∙ ap (λ bs. has_member r m bs || is_pair role member r m) (sym before)

    revoke_set-holds :
        (p : IamPolicy) (h : List IamCall) (had : Bool)
        → has_member role member p.bindings ≡ had
        → stored h (resource_of email) ≡ p.bindings
        → ((if had
              then set_bindings client email p (remaining_bindings role member p.bindings)
              else pure none)
            h).0
          ≡ none
        → holds
            ((if had
                then set_bindings client email p (remaining_bindings role member p.bindings)
                else pure none)
              h).1
            r
            m
          ≡ (has_member r m p.bindings && not (is_pair role member r m))
    revoke_set-holds p h true had before done =
        ap (has_member r m) (set_bindings-stored p _ h done)
        ∙ has-remaining role member r m p.bindings
    revoke_set-holds p h false had before done = ap (has_member r m) before ∙ not_had p.bindings had

    revoke_in-holds :
        (answer : Result IamPolicy) (h : List IamCall)
        → client.get_policy h (resource_of email) ≡ answer
        → (revoke_in client email role member answer (policy_get (resource_of email) answer ∷ h)).0
          ≡ none
        → holds
            (revoke_in client email role member answer
              (policy_get (resource_of email) answer ∷ h)).1
            r
            m
          ≡ (holds h r m && not (is_pair role member r m))
    unfolding revoke_in has_member
    revoke_in-holds (err e) h same done = elim (Bool-cases (client.google_not_found e)) [
      | inl gone ↦
          let kept = keeps.asks h (resource_of email) (resource_of email) (err e) in
          let empty = keeps.tells_missing h (resource_of email) e same gone in
          rw gone (
            ap (has_member r m) (kept ∙ empty)
            ∙ sym (ap (λ bs. has_member r m bs && not (is_pair role member r m)) empty))
      | inr other ↦ absurd (cc (rw other at done))
    ]
    revoke_in-holds (ok p) h same done =
        let before = keeps.tells h (resource_of email) p same in
        let kept = keeps.asks h (resource_of email) (resource_of email) (ok p) in
        revoke_set-holds p _ (has_member role member p.bindings) refl (kept ∙ before) done
        ∙ ap (λ bs. has_member r m bs && not (is_pair role member r m)) (sym before)

  -- When `grantServiceAccountIAMBinding` returns without an error, the member holds the role, and
  -- nothing else has changed in who holds what.
  pub grant_binding-holds :
      (h : List IamCall)
      → (grant_binding client email role member h).0 ≡ none
      → (r m : String)
      → holds (grant_binding client email role member h).1 r m
        ≡ (holds h r m || is_pair role member r m)
  unfolding grant_binding
  grant_binding-holds h done r m = grant_in-holds r m _ h refl done

  -- When `revokeServiceAccountIAMBinding` returns without an error, the member does not hold the
  -- role, and nothing else has changed in who holds what.
  pub revoke_binding-holds :
      (h : List IamCall)
      → (revoke_binding client email role member h).0 ≡ none
      → (r m : String)
      → holds (revoke_binding client email role member h).1 r m
        ≡ (holds h r m && not (is_pair role member r m))
  unfolding revoke_binding
  revoke_binding-holds h done r m = revoke_in-holds r m _ h refl done
