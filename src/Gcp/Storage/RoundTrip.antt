-- ===== src/Gcp/Storage/RoundTrip.antt =====
-- The properties of a bucket on their way to Cloud Storage and back.
use vedro.Prelude.{
  ℕ, suc, String, Bool, true, false, not, ◌≡◌, refl, sym, ap, ◌∙◌, Option, none, some, List, [],
  ◌∷◌, if◌then◌else◌, arith, eq_refl, eq_iff, Bool-cases, inl, inr, ◌==◌,
}
use vedro.Prelude.Int.{ℤ, pos, ltb_ℤ}
use vedro.Errors.{Result, ok, err}
use vedro.Api.Bucket.{
  BucketProperties, BucketVersioning, BucketLifecycle, BucketLifecycleRule, lifecycle_action_delete,
  storage_class_standard, storage_class_warm, storage_class_cold, storage_class_ice,
}
use vedro.Capabilities.{elems}
use vedro.Cloud.{BucketAttrs}
use vedro.Gcp.Normalization.{appended, normalized_versioning, normalized_prevention}
use vedro.Gcp.Storage.{
  GcsAttrs, GcsRule, PublicAccessPrevention, condition_of, to_gcs_rules, from_gcs_rules,
  to_gcs_lifecycle, from_gcs_lifecycle, to_gcs_attrs, from_gcs_attrs, storage_class_of, with_rule,
  to_mapped, to_gcs_properties, unmapped_class, unknown, gcs_prevention, prevention_of,
  versioning_of, gcs_storage_class, from_cloud_specific, to_cloud_specific,
}

-- A rule that Cloud Storage keeps has a positive age, and no name.
abbrev pub kept_rule :
    BucketLifecycleRule → Option ℤ → List BucketLifecycleRule → List BucketLifecycleRule
kept_rule r none rest = rest
kept_rule r (some age) rest = record r { name = none; age_days = some age } ∷ rest

-- The rules that Cloud Storage keeps: those that are enabled and have a positive age.
unfoldable pub kept_rules : List BucketLifecycleRule → List BucketLifecycleRule
kept_rules [] = []
kept_rules (r ∷ rs) =
    let rest = kept_rules rs in
    if not r.enabled then rest else kept_rule r (condition_of r.age_days) rest

unfoldable pub kept_lifecycle : Option BucketLifecycle → BucketLifecycle
unfolding kept_rules
kept_lifecycle none = record { rules = none }
kept_lifecycle (some l) = record { rules = appended (kept_rules (elems l.rules)) }

-- What remains of the properties: everything, with the defaults of Cloud Storage filled in, but the
-- rules that it does not keep and the settings of another cloud.
abbrev pub kept_properties : BucketProperties → BucketProperties
kept_properties p = record {
  public_access_prevention = normalized_prevention p.public_access_prevention;
  versioning = normalized_versioning p.versioning;
  lifecycle = some (kept_lifecycle p.lifecycle);
  storage_class = p.storage_class;
  labels = p.labels;
  cloud_specific_config = to_cloud_specific (some (from_cloud_specific p.cloud_specific_config));
}

pub when_on : {A : Type 0} (b : Bool) (x y : A) → b ≡ true → (if not b then x else y) ≡ y
when_on true x y on = refl
when_on false x y on = cc on

condition_of-positive : (a : Option ℤ) (d : ℤ) → condition_of a ≡ some d → ltb_ℤ (pos 0) d ≡ true
condition_of-positive none d e = cc e
condition_of-positive (some x) d e = elim (Bool-cases (ltb_ℤ (pos 0) x)) [
  | inl b ↦ ground (arith, b, e)
  | inr b ↦ absurd (cc (rw b at e))
]

module _ (delete_action : String) where
  rule-kept :
      (r : BucketLifecycleRule) (age : Option ℤ) (rest : Result (List GcsRule))
      (kept : List BucketLifecycleRule) (gcs : List GcsRule)
      → condition_of r.age_days ≡ age
      → r.enabled ≡ true
      → (r.action == lifecycle_action_delete) ≡ true
      → ((g : List GcsRule) → rest ≡ ok g → from_gcs_rules delete_action g ≡ kept)
      → with_rule delete_action age rest ≡ ok gcs
      → from_gcs_rules delete_action gcs ≡ kept_rule r age kept
  unfolding from_gcs_rules
  rule-kept r none (err x) kept gcs c on act each e = cc e
  rule-kept r none (ok g) kept gcs c on act each e = cc (each g refl, e)
  rule-kept r (some d) (err x) kept gcs c on act each e = cc e
  rule-kept r (some d) (ok g) kept gcs c on act each e =
      let gcs_rule : GcsRule = record { type = delete_action; age_in_days = d } in
      let back : from_gcs_rules delete_action (gcs_rule ∷ g) ≡ kept_rule r (some d) kept = ground (
        arith,
        eq_refl delete_action,
        condition_of-positive r.age_days d c,
        each g refl,
        eq_iff r.action lifecycle_action_delete,
      ) in
      cc (back, e)

  from_to_rules :
      (index : ℕ) (rs : List BucketLifecycleRule) (gcs : List GcsRule)
      → to_gcs_rules delete_action index rs ≡ ok gcs
      → from_gcs_rules delete_action gcs ≡ kept_rules rs
  unfolding to_gcs_rules from_gcs_rules kept_rules
  from_to_rules index [] gcs e = let same : [] ≡ gcs = cc e in rw (sym same) refl
  from_to_rules index (r ∷ rs) gcs e =
      let rest = to_gcs_rules delete_action (suc index) rs in
      elim (Bool-cases r.enabled) [
        | inl on ↦ elim (Bool-cases (r.action == lifecycle_action_delete)) [
          | inl act ↦
              let kept = kept_rule r (condition_of r.age_days) (kept_rules rs) in
              rule-kept r (condition_of r.age_days) rest (kept_rules rs) gcs refl on act
                (from_to_rules (suc index) rs) (rw (on, act) at e)
              ∙ sym (when_on r.enabled (kept_rules rs) kept on)
          | inr act ↦ absurd (cc (rw (on, act) at e))
        ]
        | inr off ↦ rw off (from_to_rules (suc index) rs gcs (rw off at e))
      ]

  from_to_lifecycle :
      (l : Option BucketLifecycle) (gcs : List GcsRule)
      → to_gcs_lifecycle delete_action l ≡ ok gcs
      → from_gcs_lifecycle delete_action gcs ≡ kept_lifecycle l
  unfolding to_gcs_lifecycle from_gcs_lifecycle from_gcs_rules kept_lifecycle
  from_to_lifecycle none gcs e = let same : [] ≡ gcs = cc e in rw (sym same) refl
  from_to_lifecycle (some l) gcs e =
      ap (λ rs. record { rules = appended rs }) (from_to_rules 0 (elems l.rules) gcs e)

class_case :
    (c g gcs class : String)
    → (c == class) ≡ true
    → some gcs ≡ some g
    → gcs_storage_class gcs ≡ some class
    → gcs_storage_class g ≡ some c
class_case c g gcs class same e back =
    let is_class : c ≡ class = (eq_iff c class).0 same in cc (e, back, is_class)

storage_class-round : (c g : String) → storage_class_of c ≡ some g → gcs_storage_class g ≡ some c
unfolding storage_class_of gcs_storage_class
storage_class-round c g e = elim (Bool-cases (c == storage_class_standard)) [
  | inl a ↦ class_case c g "STANDARD" storage_class_standard a (rw a at e) refl
  | inr a ↦ elim (Bool-cases (c == storage_class_warm)) [
    | inl b ↦ class_case c g "NEARLINE" storage_class_warm b (rw (a, b) at e) refl
    | inr b ↦ elim (Bool-cases (c == storage_class_cold)) [
      | inl d ↦ class_case c g "COLDLINE" storage_class_cold d (rw (a, b, d) at e) refl
      | inr d ↦ elim (Bool-cases (c == storage_class_ice)) [
        | inl f ↦ class_case c g "ARCHIVE" storage_class_ice f (rw (a, b, d, f) at e) refl
        | inr f ↦ absurd (cc (rw (a, b, d, f) at e))
      ]
    ]
  ]
]

module _ (delete_action : String) (print_prevention : PublicAccessPrevention → String) where
  prevention-round :
      (p : Option Bool) → gcs_prevention (prevention_of p) ≡ some (normalized_prevention p)
  prevention-round none = refl
  prevention-round (some true) = refl
  prevention-round (some false) = refl

  versioning-round :
      (v : Option BucketVersioning)
      → some (record { enabled = versioning_of v }) ≡ normalized_versioning v
  versioning-round none = refl
  versioning-round (some v) = refl

  mapped-round :
      (a : BucketAttrs) (p : BucketProperties) (class : Option String)
      (rules : Result (List GcsRule)) (gcs : GcsAttrs)
      → storage_class_of p.storage_class ≡ class
      → to_gcs_lifecycle delete_action p.lifecycle ≡ rules
      → to_mapped delete_action a p class rules ≡ ok gcs
      → from_gcs_attrs delete_action print_prevention gcs
        ≡ ok (record a { id = a.name; properties = some (kept_properties p) })
  unfolding from_gcs_attrs
  mapped-round a p none rules gcs c l e = cc e
  mapped-round a p (some class) (err x) gcs c l e = cc e
  mapped-round a p (some class) (ok rules) gcs c l e =
      let made : GcsAttrs = record {
        name = a.name;
        location = a.location;
        storage_class = class;
        labels = p.labels;
        public_access_prevention = prevention_of p.public_access_prevention;
        versioning_enabled = versioning_of p.versioning;
        lifecycle = rules;
        soft_delete_policy = some (from_cloud_specific p.cloud_specific_config);
      } in
      let same : made ≡ gcs = cc e in
      let lifecycle = from_to_lifecycle delete_action p.lifecycle rules l in
      rw (sym same) (
        rw
          (
            prevention-round p.public_access_prevention,
            storage_class-round p.storage_class class c,
            versioning-round p.versioning,
            lifecycle,
          )
          refl)

  -- What is read back of a bucket: without properties its storage class is empty, and so unknown.
  abbrev pub read_back : BucketAttrs → Option BucketProperties → Result BucketAttrs
  read_back a none = err (unmapped_class "")
  read_back a (some p) = ok (record a { id = a.name; properties = some (kept_properties p) })

  properties-round :
      (a : BucketAttrs) (p : Option BucketProperties) (gcs : GcsAttrs)
      → to_gcs_properties delete_action a p ≡ ok gcs
      → from_gcs_attrs delete_action print_prevention gcs ≡ read_back a p
  unfolding from_gcs_attrs gcs_storage_class
  properties-round a none gcs e =
      let made : GcsAttrs = record {
        name = a.name;
        location = a.location;
        storage_class = "";
        labels = none;
        public_access_prevention = unknown;
        versioning_enabled = false;
        lifecycle = [];
        soft_delete_policy = none;
      } in
      let same : made ≡ gcs = cc e in rw (sym same) refl
  properties-round a (some p) gcs e = mapped-round a p _ _ gcs refl refl e

  -- What `toGCSBucketAttrs` makes of a bucket with properties is read back by `fromGCSBucketAttrs` as
  -- the same bucket, with its name for its id and the properties that Cloud Storage keeps; what it
  -- makes of one without is refused there, for its storage class is empty.
  pub to_gcs_attrs-round :
      (a : BucketAttrs) (gcs : GcsAttrs)
      → to_gcs_attrs delete_action a ≡ ok gcs
      → from_gcs_attrs delete_action print_prevention gcs ≡ read_back a a.properties
  unfolding to_gcs_attrs
  to_gcs_attrs-round a gcs e = properties-round a a.properties gcs e
