-- ===== src/Gcp/Gcs/Replay/Kept.antt =====
-- The client of internal/cloud/gcp/bucket_api.go keeps accesses.
use vedro.Prelude.{
  String, Bool, true, false, not, ◌&&◌, ◌||◌, ◌==◌, ◌≡◌, refl, ◌∙◌, Option, none, some, List,
  Bool-cases, inl, inr, arith, eq_refl, eq_iff,
}
use vedro.Cloud.{BucketAccessAttrs}
use vedro.Gcp.Client.{GoText, Call}
use vedro.Gcp.Accesses.Held.{same_grant, KeepsAccesses}
use vedro.Gcp.Storage.{PublicAccessPrevention}
use vedro.Gcp.Gcs.{GcsCall, GcsService, GoInt, read_policy}
use vedro.Gcp.Gcs.Policies.{role_of_level, has_access, grant_access, revoke_access}
use vedro.Gcp.Gcs.Policies.Granted.{
  KeepsBucketPolicies, ChangedBy, grant_access-ChangedBy, revoke_access-ChangedBy,
}
use vedro.Gcp.Gcs.Replay.{replay, gcs_client}
use vedro.Gcp.Gcs.Replay.Levels.{other-pair}
use vedro.Gcp.Gcs.Replay.Held.{MissesBuckets, held_at, got-tells, got-missing, asked_at}
use vedro.Gcp.Gcs.Replay.Changes.{change_access-far, change_access-missing}

module _ {Policy : Type 0} (service : GcsService Policy)
    (held : List (GcsCall Policy) → String → String → String → Bool)
    (keeps : KeepsBucketPolicies service held) (misses : MissesBuckets service held) where
  granted_at :
      (h h' : List (GcsCall Policy)) (a : BucketAccessAttrs)
      → ChangedBy service held keeps a (λ had same. had || same) h h'
      → held_at held h' a (role_of_level a.granted_access) ≡ true
  granted_at h h' a (role, has, changes) =
      rw has (changes role a.principal_id ∙ ground (arith, eq_refl role, eq_refl a.principal_id))

  revoked_at :
      (h h' : List (GcsCall Policy)) (a : BucketAccessAttrs)
      → ChangedBy service held keeps a (λ had same. had && not same) h h'
      → held_at held h' a (role_of_level a.granted_access) ≡ false
  revoked_at h h' a (role, has, changes) =
      rw has (changes role a.principal_id ∙ ground (arith, eq_refl role, eq_refl a.principal_id))

  near_at :
      (h h' : List (GcsCall Policy)) (a x : BucketAccessAttrs) (role : Option String)
      → role_of_level a.granted_access ≡ role
      → same_grant a x ≡ false
      → (a.bucket_name == x.bucket_name) ≡ true
      → ChangedBy service held keeps x (λ had same. had || same) h h'
      → held_at held h' a role ≡ held_at held h a role
  near_at h h' a x none ra distinct near changed = refl
  near_at h h' a x (some role) ra distinct near (other, rx, changes) =
      let apart = other-pair a x role other ra rx distinct near in
      let name : a.bucket_name ≡ x.bucket_name = (eq_iff a.bucket_name x.bucket_name).0 near in
      rw name (changes role a.principal_id ∙ rw apart (ground arith))

  grant_access-far :
      (h : List (GcsCall Policy)) (a x : BucketAccessAttrs)
      → (a.bucket_name == x.bucket_name) ≡ false
      → held_at held (grant_access service x h).1 a (role_of_level a.granted_access)
        ≡ held_at held h a (role_of_level a.granted_access)
  unfolding grant_access
  grant_access-far h a x far = change_access-far service held keeps misses service.add x h a _ far

  module _ (delete_action project : String) (print : PublicAccessPrevention → String)
      (text : GoText) (ints : GoInt) where
    -- Which accesses hold after a history of the client's calls.
    abbrev pub gcs_holds : List Call → BucketAccessAttrs → Bool
    gcs_holds h a =
        held_at held (replay service delete_action project print text ints h) a
          (role_of_level a.granted_access)

    grant_access-one :
        (h : List (GcsCall Policy)) (a x : BucketAccessAttrs)
        → (grant_access service x h).0 ≡ none
        → same_grant a x ≡ false
        → held_at held (grant_access service x h).1 a (role_of_level a.granted_access)
          ≡ held_at held h a (role_of_level a.granted_access)
    grant_access-one h a x done distinct = elim (Bool-cases (a.bucket_name == x.bucket_name)) [
      | inl near ↦
          near_at h _ a x _ refl distinct near (grant_access-ChangedBy service held keeps x h done)
      | inr far ↦ grant_access-far h a x far
    ]

    -- Over a service that keeps the policies of buckets, the client of Cloud Storage keeps accesses.
    pub gcs_client-KeepsAccesses :
        KeepsAccesses (gcs_client service delete_action project print text ints) gcs_holds
    unfolding replay has_access read_policy revoke_access
    gcs_client-KeepsAccesses = record {
      tells = λ h a v e. got-tells service held keeps misses _ a v _ refl e;
      tells_missing =
          λ h a v x e missing. got-missing service held keeps misses _ a v x _ refl e missing;
      asks = λ h a x answer. asked_at service held keeps misses _ x.bucket_name _ a _;
      grants = λ h a e. granted_at _ _ a (grant_access-ChangedBy service held keeps a _ e);
      grants_one = λ h a x e distinct. grant_access-one _ a x e distinct;
      revokes = λ h a e. revoked_at _ _ a (revoke_access-ChangedBy service held keeps a _ e);
      revokes_missing = λ h a x e missing.
          change_access-missing service held keeps misses service.remove a _ x e missing;
    }
