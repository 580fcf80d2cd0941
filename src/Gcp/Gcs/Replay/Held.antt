-- ===== src/Gcp/Gcs/Replay/Held.antt =====
-- The accesses of a policy of internal/cloud/gcp/bucket_api.go, and those of a bucket that is not
-- found.
use vedro.Prelude.{
  String, Bool, true, false, ◌==◌, ◌≡◌, refl, ap, ◌∙◌, Option, none, some, List, ◌∷◌, Bool-cases,
  inl, inr,
}
use vedro.Errors.{Error, Result, ok, err, is_error, bucket_not_found}
use vedro.Cloud.{BucketAccessAttrs}
use vedro.Gcp.Gcs.{GcsCall, GcsService, policy_read, policy_written}
use vedro.Gcp.Gcs.Policies.{role_of_level, policy_error, access_in, access_got}
use vedro.Gcp.Gcs.Policies.Granted.{KeepsBucketPolicies}
use vedro.Gcp.Gcs.Replay.{has_pair}

-- In a bucket that is not found nobody has a role, a call changes the policy of its own bucket only,
-- and the errors of the service are not those of this program.
pub record MissesBuckets {Policy : Type 0} (service : GcsService Policy)
    (held : List (GcsCall Policy) → String → String → String → Bool) : Type 0 where
  pub reads_missing :
      (h : List (GcsCall Policy)) (n : String) (e : Error)
      → service.read_policy h n ≡ err e
      → service.google_not_found e ≡ true
      → (r m : String) → held h n r m ≡ false
  pub writes_missing :
      (h : List (GcsCall Policy)) (n : String) (p : Policy) (e : Error)
      → service.write_policy h n p ≡ some e
      → service.google_not_found e ≡ true
      → (r m : String) → held (policy_written n p (some e) ∷ h) n r m ≡ false
  pub others :
      (h : List (GcsCall Policy)) (n k : String) (p : Policy) (answer : Option Error)
      → (k == n) ≡ false
      → (r m : String) → held (policy_written n p answer ∷ h) k r m ≡ held h k r m
  pub reads_foreign :
      (h : List (GcsCall Policy)) (n : String) (e : Error)
      → service.read_policy h n ≡ err e
      → is_error e bucket_not_found ≡ false
  pub writes_foreign :
      (h : List (GcsCall Policy)) (n : String) (p : Policy) (e : Error)
      → service.write_policy h n p ≡ some e
      → is_error e bucket_not_found ≡ false

-- Whether an access holds: its principal has the role of its level.
abbrev pub held_at :
    {Policy : Type 0}
    → (List (GcsCall Policy) → String → String → String → Bool)
    → List (GcsCall Policy)
    → BucketAccessAttrs
    → Option String
    → Bool
held_at held h a none = false
held_at held h a (some role) = held h a.bucket_name role a.principal_id

module _ {Policy : Type 0} (service : GcsService Policy)
    (held : List (GcsCall Policy) → String → String → String → Bool)
    (keeps : KeepsBucketPolicies service held) (misses : MissesBuckets service held) where
  pub in-tells :
      (h : List (GcsCall Policy)) (a : BucketAccessAttrs) (v : Bool) (p : Policy)
      (role : Option String)
      → service.read_policy h a.bucket_name ≡ ok p
      → has_pair (access_in service a p role) ≡ (v, none)
      → held_at held h a role ≡ v
  in-tells h a v p none same e = cc e
  in-tells h a v p (some role) same e =
      keeps.tells h a.bucket_name p same role a.principal_id ∙ ap (λ x. x.0) e

  pub got-tells :
      (h : List (GcsCall Policy)) (a : BucketAccessAttrs) (v : Bool) (answer : Result Policy)
      → service.read_policy h a.bucket_name ≡ answer
      → has_pair (access_got service a answer) ≡ (v, none)
      → held_at held h a (role_of_level a.granted_access) ≡ v
  got-tells h a v (err e) same done = cc done
  got-tells h a v (ok p) same done = in-tells h a v p (role_of_level a.granted_access) same done

  pub missing_at :
      (h : List (GcsCall Policy)) (a : BucketAccessAttrs) (role : Option String)
      → ((r m : String) → held h a.bucket_name r m ≡ false)
      → held_at held h a role ≡ false
  missing_at h a none gone = refl
  missing_at h a (some role) gone = gone role a.principal_id

  -- An error of the policy's reading that is that of a missing bucket.
  pub policy_error-missing :
      (h : List (GcsCall Policy)) (n : String) (e : Error)
      → service.read_policy h n ≡ err e
      → is_error (policy_error service e) bucket_not_found ≡ true
      → (r m : String) → held h n r m ≡ false
  unfolding is_error
  policy_error-missing h n e same missing = elim (Bool-cases (service.google_not_found e)) [
    | inl gone ↦ misses.reads_missing h n e same gone
    | inr other ↦
        let found = rw other at missing in absurd (cc (misses.reads_foreign h n e same, found))
  ]

  in-missing :
      (h : List (GcsCall Policy)) (a : BucketAccessAttrs) (v : Bool) (p : Policy) (x : Error)
      (role : Option String)
      → has_pair (access_in service a p role) ≡ (v, some x)
      → is_error x bucket_not_found ≡ true
      → held_at held h a role ≡ false
  in-missing h a v p x none e missing = refl
  in-missing h a v p x (some role) e missing = cc e

  pub got-missing :
      (h : List (GcsCall Policy)) (a : BucketAccessAttrs) (v : Bool) (x : Error)
      (answer : Result Policy)
      → service.read_policy h a.bucket_name ≡ answer
      → has_pair (access_got service a answer) ≡ (v, some x)
      → is_error x bucket_not_found ≡ true
      → held_at held h a (role_of_level a.granted_access) ≡ false
  got-missing h a v x (err e) same done missing =
      let is_x : policy_error service e ≡ x = cc done in
      missing_at h a _ (
        policy_error-missing h a.bucket_name e same
          (ap (λ y. is_error y bucket_not_found) is_x ∙ missing))
  got-missing h a v x (ok p) same done missing = in-missing h a v p x _ done missing

  pub asked_at :
      (h : List (GcsCall Policy)) (n : String) (answer : Result Policy) (a : BucketAccessAttrs)
      (role : Option String)
      → held_at held (policy_read n answer ∷ h) a role ≡ held_at held h a role
  asked_at h n answer a none = refl
  asked_at h n answer a (some role) = keeps.asks h n answer a.bucket_name role a.principal_id
