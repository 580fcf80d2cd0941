-- ===== src/Gcp/Gcs/Policies/Granted.antt =====
-- Which members have which roles on a bucket after the calls of internal/cloud/gcp/bucket_api.go.
use vedro.Prelude.{
  String, Bool, not, ◌&&◌, ◌||◌, ◌≡◌, refl, sym, ap, ◌∙◌, Option, none, some, List, ◌∷◌, contains,
  Bool-cases, inl, inr,
}
use vedro.Errors.{Error, Result, ok, err}
use vedro.Cloud.{BucketAccessAttrs}
use vedro.Gcp.Bindings.Pairs.{is_pair}
use vedro.Gcp.Gcs.{GcsCall, GcsService, policy_read, policy_written, read_policy, write_policy}
use vedro.Gcp.Gcs.Policies.{
  role_of_level, policy_saved, change_at, change_in, change_access, grant_access, revoke_access,
}

-- What Google documents of the policies of a bucket, and of the server: a policy that is read has the
-- members of each role, and they change to those of the policy that is written. The last two are
-- `Policy.Add` and `Policy.Remove`.
pub record KeepsBucketPolicies {Policy : Type 0} (service : GcsService Policy)
    (held : List (GcsCall Policy) → String → String → String → Bool) : Type 0 where
  pub tells :
      (h : List (GcsCall Policy)) (n : String) (p : Policy)
      → service.read_policy h n ≡ ok p
      → (r m : String) → held h n r m ≡ contains (service.members p r) m
  pub asks :
      (h : List (GcsCall Policy)) (n : String) (answer : Result Policy) (k r m : String)
      → held (policy_read n answer ∷ h) k r m ≡ held h k r m
  pub sets :
      (h : List (GcsCall Policy)) (n : String) (p : Policy)
      → service.write_policy h n p ≡ none
      → (r m : String) → held (policy_written n p none ∷ h) n r m ≡ contains (service.members p r) m
  pub adds :
      (p : Policy) (member role r m : String)
      → contains (service.members (service.add p member role) r) m
        ≡ (contains (service.members p r) m || is_pair role member r m)
  pub removes :
      (p : Policy) (member role r m : String)
      → contains (service.members (service.remove p member role) r) m
        ≡ (contains (service.members p r) m && not (is_pair role member r m))

module _ {Policy : Type 0} (service : GcsService Policy)
    (held : List (GcsCall Policy) → String → String → String → Bool)
    (keeps : KeepsBucketPolicies service held) (access : BucketAccessAttrs) where
  -- Between two histories, who has which role on the bucket changed by a rule, at the role of the
  -- level and the principal of the access.
  abbrev pub ChangedBy :
      (Bool → Bool → Bool) → List (GcsCall Policy) → List (GcsCall Policy) → Type 0
  ChangedBy rule h h' =
      (role : String) × (role_of_level access.granted_access ≡ some role)
      × ((r m : String)
          → held h' access.bucket_name r m
            ≡ rule (held h access.bucket_name r m) (is_pair role access.principal_id r m))

  module _ (change : Policy → String → String → Policy) (rule : Bool → Bool → Bool)
      (changes : (p : Policy) (member role r m : String)
        → contains (service.members (change p member role) r) m
          ≡ rule (contains (service.members p r) m) (is_pair role member r m)) where
    saved-members :
        (p : Policy) (h : List (GcsCall Policy)) (answer : Option Error)
        → service.write_policy h access.bucket_name p ≡ answer
        → policy_saved service answer ≡ none
        → (r m : String)
        → held (policy_written access.bucket_name p answer ∷ h) access.bucket_name r m
          ≡ contains (service.members p r) m
    saved-members p h none same done = keeps.sets h access.bucket_name p same
    saved-members p h (some e) same done = elim (Bool-cases (service.google_not_found e)) [
      | inl gone ↦ absurd (cc (rw gone at done))
      | inr other ↦ absurd (cc (rw other at done))
    ]

    change_at-ChangedBy :
        (p : Policy) (h h' : List (GcsCall Policy)) (role : Option String)
        → role_of_level access.granted_access ≡ role
        → ((r m : String) → held h access.bucket_name r m ≡ contains (service.members p r) m)
        → (change_at service change access p role h').0 ≡ none
        → ChangedBy rule h (change_at service change access p role h').1
    unfolding write_policy
    change_at-ChangedBy p h h' none same before done = cc done
    change_at-ChangedBy p h h' (some role) same before done = (
      role,
      same,
      λ r m.
          saved-members (change p access.principal_id role) h' _ refl done r m
          ∙ changes p access.principal_id role r m
          ∙ ap (λ b. rule b (is_pair role access.principal_id r m)) (sym (before r m)),
    )

    change_in-ChangedBy :
        (h : List (GcsCall Policy)) (answer : Result Policy)
        → service.read_policy h access.bucket_name ≡ answer
        → (change_in service change access answer (policy_read access.bucket_name answer ∷ h)).0
          ≡ none
        → ChangedBy rule h
            (change_in service change access answer (policy_read access.bucket_name answer ∷ h)).1
    change_in-ChangedBy h (err e) same done = cc done
    change_in-ChangedBy h (ok p) same done =
        change_at-ChangedBy p h _ _ refl (keeps.tells h access.bucket_name p same) done

    change_access-ChangedBy :
        (h : List (GcsCall Policy))
        → (change_access service change access h).0 ≡ none
        → ChangedBy rule h (change_access service change access h).1
    unfolding change_access read_policy
    change_access-ChangedBy h done = change_in-ChangedBy h _ refl done

  -- When `GrantAccess` returns without an error, the level of the access has a role, the principal has
  -- it on the bucket, and nothing else has changed in who has which role there.
  pub grant_access-ChangedBy :
      (h : List (GcsCall Policy))
      → (grant_access service access h).0 ≡ none
      → ChangedBy (λ had same. had || same) h (grant_access service access h).1
  unfolding grant_access
  grant_access-ChangedBy h done =
      change_access-ChangedBy service.add (λ had same. had || same) keeps.adds h done

  -- When `RevokeAccess` returns without an error, the level of the access has a role, the principal
  -- does not have it on the bucket, and nothing else has changed in who has which role there.
  pub revoke_access-ChangedBy :
      (h : List (GcsCall Policy))
      → (revoke_access service access h).0 ≡ none
      → ChangedBy (λ had same. had && not same) h (revoke_access service access h).1
  unfolding revoke_access
  revoke_access-ChangedBy h done =
      change_access-ChangedBy service.remove (λ had same. had && not same) keeps.removes h done
