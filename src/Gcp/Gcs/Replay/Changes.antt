-- ===== src/Gcp/Gcs/Replay/Changes.antt =====
-- What a change of a policy by internal/cloud/gcp/bucket_api.go leaves in other buckets and in one
-- that is not found.
use vedro.Prelude.{
  String, Bool, true, false, ◌==◌, ◌≡◌, refl, ap, ◌∙◌, Option, none, some, List, ◌∷◌, Bool-cases,
  inl, inr,
}
use vedro.Errors.{Error, Result, ok, err, is_error, bucket_not_found, wrap}
use vedro.Cloud.{BucketAccessAttrs}
use vedro.Gcp.Gcs.{GcsCall, GcsService, policy_read, policy_written, read_policy, write_policy}
use vedro.Gcp.Gcs.Policies.{
  role_of_level, policy_error, policy_saved, change_at, change_in, change_access,
}
use vedro.Gcp.Gcs.Policies.Granted.{KeepsBucketPolicies}
use vedro.Gcp.Gcs.Replay.Held.{MissesBuckets, held_at, missing_at, policy_error-missing, asked_at}

module _ {Policy : Type 0} (service : GcsService Policy)
    (held : List (GcsCall Policy) → String → String → String → Bool)
    (keeps : KeepsBucketPolicies service held) (misses : MissesBuckets service held) where
  module _ (change : Policy → String → String → Policy) (x : BucketAccessAttrs) where
    change_at-far :
        (p : Policy) (role : Option String) (h : List (GcsCall Policy)) (k r m : String)
        → (k == x.bucket_name) ≡ false
        → held (change_at service change x p role h).1 k r m ≡ held h k r m
    unfolding write_policy
    change_at-far p none h k r m far = refl
    change_at-far p (some role) h k r m far = misses.others h x.bucket_name k _ _ far r m

    change_in-far :
        (answer : Result Policy) (h : List (GcsCall Policy)) (k r m : String)
        → (k == x.bucket_name) ≡ false
        → held (change_in service change x answer h).1 k r m ≡ held h k r m
    change_in-far (err e) h k r m far = refl
    change_in-far (ok p) h k r m far = change_at-far p _ h k r m far

    pub change_access-far :
        (h : List (GcsCall Policy)) (a : BucketAccessAttrs) (role : Option String)
        → (a.bucket_name == x.bucket_name) ≡ false
        → held_at held (change_access service change x h).1 a role ≡ held_at held h a role
    unfolding change_access read_policy
    change_access-far h a none far = refl
    change_access-far h a (some role) far =
        change_in-far _ _ a.bucket_name role a.principal_id far
        ∙ asked_at service held keeps misses h x.bucket_name _ a (some role)

    saved-missing :
        (p : Policy) (h : List (GcsCall Policy)) (answer : Option Error) (e : Error)
        → service.write_policy h x.bucket_name p ≡ answer
        → policy_saved service answer ≡ some e
        → is_error e bucket_not_found ≡ true
        → (r m : String)
        → held (policy_written x.bucket_name p answer ∷ h) x.bucket_name r m ≡ false
    unfolding is_error
    saved-missing p h none e same done missing = cc done
    saved-missing p h (some e') e same done missing =
        elim (Bool-cases (service.google_not_found e')) [
          | inl gone ↦ misses.writes_missing h x.bucket_name p e' same gone
          | inr other ↦
              let foreign = misses.writes_foreign h x.bucket_name p e' same in
              let is_wrap : wrap "set IAM policy" e' ≡ e = cc (rw other at done) in
              let chain = ap (λ y. is_error y bucket_not_found) is_wrap in
              absurd (cc (chain, foreign, missing))
        ]

    change_at-missing :
        (p : Policy) (role : Option String) (h : List (GcsCall Policy)) (e : Error)
        → (change_at service change x p role h).0 ≡ some e
        → is_error e bucket_not_found ≡ true
        → held_at held (change_at service change x p role h).1 x role ≡ false
    unfolding write_policy
    change_at-missing p none h e done missing = refl
    change_at-missing p (some role) h e done missing =
        saved-missing _ h _ e refl done missing role x.principal_id

    change_in-missing :
        (answer : Result Policy) (h : List (GcsCall Policy)) (e : Error)
        → service.read_policy h x.bucket_name ≡ answer
        → let asked = policy_read x.bucket_name answer ∷ h in
          (change_in service change x answer asked).0 ≡ some e
          → is_error e bucket_not_found ≡ true
          → held_at held
              (change_in service change x answer asked).1
              x
              (role_of_level x.granted_access)
            ≡ false
    change_in-missing (err e') h e same done missing =
        let is_e : policy_error service e' ≡ e = cc done in
        asked_at service held keeps misses h x.bucket_name (err e') x _
        ∙ missing_at service held keeps misses h x _ (
            policy_error-missing service held keeps misses h x.bucket_name e' same
              (ap (λ y. is_error y bucket_not_found) is_e ∙ missing))
    change_in-missing (ok p) h e same done missing =
        change_at-missing p (role_of_level x.granted_access) _ e done missing

    pub change_access-missing :
        (h : List (GcsCall Policy)) (e : Error)
        → (change_access service change x h).0 ≡ some e
        → is_error e bucket_not_found ≡ true
        → held_at held (change_access service change x h).1 x (role_of_level x.granted_access)
          ≡ false
    unfolding change_access read_policy
    change_access-missing h e done missing = change_in-missing _ h e refl done missing
