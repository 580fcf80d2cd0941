-- ===== src/Tests/Gcs.antt =====
-- The accesses of Google Cloud with a service that keeps the policies of buckets in the history.
use vedro.Prelude.{
  Bool-cases, inl, inr, ◌≡◌, refl, ap, String, Bool, true, false, not, ◌&&◌, ◌||◌, ◌==◌, eq_refl,
  eq_iff, arith, Option, none, some, List, [], ◌∷◌, ◌++◌, contains, if◌then◌else◌,
}
use vedro.Prelude
use vedro.Gcp.Gcs.Replay.Held.{MissesBuckets}
use vedro.Errors.{Error, Result, ok, err, sentinel, is_error, bucket_not_found}
use vedro.Api.Access.{object_reader}
use vedro.Cloud.{BucketAccessAttrs}
use vedro.Gcp.Bindings.Pairs.{is_pair}
use vedro.Gcp.Gcs.{GcsCall, GcsService, policy_written}
use vedro.Gcp.Gcs.Policies.{grant_access, revoke_access}
use vedro.Gcp.Gcs.Policies.Granted.{
  KeepsBucketPolicies, ChangedBy, grant_access-ChangedBy, revoke_access-ChangedBy,
}

-- A role and its member.
abbrev pub Pairs : Type 0
Pairs = List (String × String)

unfoldable pub members_of : Pairs → String → List String
members_of [] r = []
members_of ((role, member) ∷ p) r =
    let rest = members_of p r in if role == r then member ∷ rest else rest

unfoldable pub without : Pairs → String → String → Pairs
without [] m r = []
without ((role, member) ∷ p) m r =
    let rest = without p m r in if role == r && member == m then rest else (role, member) ∷ rest

abbrev first_pairs : Pairs
first_pairs = ("roles/storage.objectViewer", "user:a") ∷ ("roles/storage.admin", "user:a") ∷ []

-- The policies that a history of calls leaves.
unfoldable pub pairs_in : List (GcsCall Pairs) → String → Pairs
pairs_in [] bucket = first_pairs
pairs_in (policy_written n p none ∷ h) bucket =
    let rest = pairs_in h bucket in if n == bucket then p else rest
pairs_in (c ∷ h) bucket = pairs_in h bucket

abbrev pub held_in : List (GcsCall Pairs) → String → String → String → Bool
held_in h bucket r m = contains (members_of (pairs_in h bucket) r) m

abbrev pub service : GcsService Pairs
service = record {
  read_attrs = λ h n. err (sentinel bucket_not_found);
  create = λ h project n attrs. none;
  update = λ h n changes. err (sentinel bucket_not_found);
  list_objects = λ h n. ([], none);
  remove_object = λ h n o generation. none;
  remove_bucket = λ h n. none;
  read_policy = λ h n. ok (pairs_in h n);
  write_policy = λ h n p. none;
  members = members_of;
  add = λ p m r. (r, m) ∷ p;
  remove = without;
  google_not_found = λ e. is_error e bucket_not_found;
}

added :
    (p : Pairs) (member role r m : String)
    → contains (members_of ((role, member) ∷ p) r) m
      ≡ (contains (members_of p r) m || is_pair role member r m)
unfolding members_of Prelude.contains
added p member role r m = ground (arith, eq_iff role r, eq_iff member m)

removed :
    (p : Pairs) (member role r m : String)
    → contains (members_of (without p member role) r) m
      ≡ (contains (members_of p r) m && not (is_pair role member r m))
unfolding members_of without Prelude.contains
removed [] member role r m = refl
removed ((a, b) ∷ p) member role r m = ground (
  arith,
  removed p member role r m,
  eq_iff a r,
  eq_iff b m,
  eq_iff a role,
  eq_iff b member,
  eq_iff role r,
  eq_iff member m,
)

read_same : (p q : Pairs) → ◌≡◌ {A = Result Pairs} (ok p) (ok q) → p ≡ q
read_same p q same = cc same

pub service-KeepsBucketPolicies : KeepsBucketPolicies service held_in
unfolding pairs_in
service-KeepsBucketPolicies = record {
  tells = λ h n p same r m. ap (λ q. contains (members_of q r) m) (read_same (pairs_in h n) p same);
  asks = λ h n answer k r m. refl;
  sets = λ h n p same r m. ground (arith, eq_refl n);
  adds = added;
  removes = removed;
}

written_far :
    (h : List (GcsCall Pairs)) (n k : String) (p : Pairs) (answer : Option Error)
    → (k == n) ≡ false
    → (r m : String) → held_in (policy_written n p answer ∷ h) k r m ≡ held_in h k r m
unfolding pairs_in
written_far h n k p (some e) far r m = refl
written_far h n k p none far r m = elim (Bool-cases (n == k)) [
  | inl near ↦ absurd (cc (far, eq_refl k, ap (λ x. k == x) ((eq_iff n k).0 near)))
  | inr other ↦ rw other refl
]

pub service-MissesBuckets : MissesBuckets service held_in
unfolding pairs_in is_error
service-MissesBuckets = record {
  reads_missing = λ h n e same gone. absurd (cc same);
  writes_missing = λ h n p e same gone. absurd (cc same);
  others = λ h n k p answer far r m. written_far h n k p answer far r m;
  reads_foreign = λ h n e same. absurd (cc same);
  writes_foreign = λ h n p e same. absurd (cc same);
}

abbrev viewer : BucketAccessAttrs
viewer = record {
  bucket_name = "data";
  bucket_id = "data";
  principal_id = "user:b";
  granted_access = object_reader;
}

grant_access-ChangedBy_example :
    ChangedBy service held_in service-KeepsBucketPolicies viewer
      (λ had same. had || same)
      []
      (grant_access service viewer []).1
unfolding grant_access
grant_access-ChangedBy_example =
    grant_access-ChangedBy service held_in service-KeepsBucketPolicies viewer [] refl

revoke_access-ChangedBy_example :
    ChangedBy service held_in service-KeepsBucketPolicies viewer
      (λ had same. had && not same)
      []
      (revoke_access service viewer []).1
unfolding revoke_access
revoke_access-ChangedBy_example =
    revoke_access-ChangedBy service held_in service-KeepsBucketPolicies viewer [] refl
