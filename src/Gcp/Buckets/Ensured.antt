-- ===== src/Gcp/Buckets/Ensured.antt =====
-- What a successful `EnsureBucket` leaves in the cloud.
use vedro.Prelude.{
  String, ◌==◌, ◌≡◌, refl, sym, subst, ◌∙◌, inl, inr, Bool-cases, Option, none, some, List, ◌∷◌,
  All,
}
use vedro.Errors.{Result, ok, err, is_error, bucket_not_found}
use vedro.UsagePolicy.{Outcome, returns}
use vedro.Api.Bucket.{Bucket, BucketProperties}
use vedro.Cloud.{BucketAttrs, BucketPatch, has_changes}
use vedro.Helpers.{bucket_name_from_cr}
use vedro.Gcp.Normalization.{desired_properties, normalized_prevention, normalized_versioning}
use vedro.Gcp.Patch.{bucket_patch, apply_patch, SameProperties, bucket_patch-converges}
use vedro.Gcp.Storage.{to_cloud_specific, from_cloud_specific}
use vedro.Gcp.Storage.RoundTrip.{kept_lifecycle, kept_properties}
use vedro.Gcp.Storage.Settled.{HasAge, rules_of, YcIsUnset, desired-kept}
use vedro.Gcp.Client.{Client, GoText, Call, bucket_get, bucket_create, bucket_update}
use vedro.Gcp.Buckets.{
  wrapped, create_attrs, apply_changes, apply_found, create_missing, after_get, ensure_bucket,
}

-- Cloud Storage keeps the properties as they are: its defaults are filled in, the enabled rules have
-- positive ages, and there are no settings of another cloud.
abbrev pub IsStorable : BucketProperties → Type 0
IsStorable p = SameProperties (kept_properties p) p

-- A bucket is stored, with these properties.
abbrev pub IsStored : Option BucketAttrs → BucketProperties → Type 0
IsStored found p =
    (kept : BucketAttrs) × (q : BucketProperties) × (found ≡ some kept)
    × (kept.properties ≡ some q)
    × SameProperties q p

-- The client keeps buckets: what `GetBucket` answers with is stored, and asking changes nothing;
-- `CreateBucket` stores the properties that it is given, and `UpdateBucket` stores the result of the
-- patch, if Cloud Storage keeps them as they are.
pub record KeepsBuckets (client : Client) (stored : List Call → String → Option BucketAttrs)
    : Type 0 where
  pub tells :
      (h : List Call) (name : String) (a : BucketAttrs)
      → client.get_bucket h name ≡ ok a
      → stored h name ≡ some a
  pub asks :
      (h : List Call) (name k : String) (answer : Result BucketAttrs)
      → stored (bucket_get name answer ∷ h) k ≡ stored h k
  pub creates :
      (h : List Call) (name : String) (attrs a : BucketAttrs) (p : BucketProperties)
      → client.create_bucket h name attrs ≡ ok a
      → attrs.properties ≡ some p
      → IsStorable p
      → IsStored (stored (bucket_create name attrs (ok a) ∷ h) name) p
  pub updates :
      (h : List Call) (name : String) (patch : BucketPatch) (old a : BucketAttrs)
      (p : BucketProperties)
      → stored h name ≡ some old
      → old.properties ≡ some p
      → client.update_bucket h name patch ≡ ok a
      → IsStorable (apply_patch patch p)
      → IsStored (stored (bucket_update name patch (ok a) ∷ h) name) (apply_patch patch p)

SameProperties-trans :
    {a b c : BucketProperties} → SameProperties a b → SameProperties b c → SameProperties a c
SameProperties-trans ab bc = record {
  prevention = ab.prevention ∙ bc.prevention;
  versioning = ab.versioning ∙ bc.versioning;
  lifecycle = ab.lifecycle ∙ bc.lifecycle;
  storage_class = ab.storage_class ∙ bc.storage_class;
  labels = ab.labels ∙ bc.labels;
  cloud_specific_config = ab.cloud_specific_config ∙ bc.cloud_specific_config;
}

same-IsStorable : {a b : BucketProperties} → SameProperties a b → IsStorable b → IsStorable a
same-IsStorable ab kept = record {
  prevention = subst (λ x. normalized_prevention x ≡ x) (sym ab.prevention) kept.prevention;
  versioning = subst (λ x. normalized_versioning x ≡ x) (sym ab.versioning) kept.versioning;
  lifecycle = subst (λ x. some (kept_lifecycle x) ≡ x) (sym ab.lifecycle) kept.lifecycle;
  storage_class = refl;
  labels = refl;
  cloud_specific_config =
      subst (λ x. to_cloud_specific (some (from_cloud_specific x)) ≡ x)
        (sym ab.cloud_specific_config) kept.cloud_specific_config;
}

module _ (client : Client) (text : GoText) (stored : List Call → String → Option BucketAttrs)
    (keeps : KeepsBuckets client stored) (b : Bucket)
    (aged : All HasAge (rules_of b.spec.lifecycle))
    (unset : YcIsUnset b.spec.cloud_specific_config) where
  -- The cloud holds the bucket with the properties that its spec asks for.
  abbrev pub IsEnsured : List Call → Type 0
  IsEnsured h = IsStored (stored h (bucket_name_from_cr b)) (desired_properties b.spec)

  desired-IsStorable : IsStorable (desired_properties b.spec)
  desired-IsStorable = desired-kept b.spec aged unset

  created-IsEnsured :
      (answer : Result BucketAttrs) (attrs : BucketAttrs) (m : String) (h : List Call)
      → client.create_bucket h (bucket_name_from_cr b) (create_attrs b) ≡ answer
      → ◌≡◌ {A = Outcome (Result BucketAttrs)} (returns (wrapped m answer)) (returns (ok attrs))
      → IsEnsured (bucket_create (bucket_name_from_cr b) (create_attrs b) answer ∷ h)
  unfolding create_attrs
  created-IsEnsured (err e) attrs m h called done = cc
  created-IsEnsured (ok a) attrs m h called done =
      keeps.creates h (bucket_name_from_cr b) (create_attrs b) a (desired_properties b.spec) called
        refl desired-IsStorable

  updated-IsEnsured :
      (old attrs : BucketAttrs) (got : BucketProperties) (answer : Result BucketAttrs) (m : String)
      (h : List Call)
      → stored h (bucket_name_from_cr b) ≡ some old
      → old.properties ≡ some got
      → client.update_bucket h (bucket_name_from_cr b) (bucket_patch got b.spec) ≡ answer
      → ◌≡◌ {A = Outcome (Result BucketAttrs)} (returns (wrapped m answer)) (returns (ok attrs))
      → IsEnsured (bucket_update (bucket_name_from_cr b) (bucket_patch got b.spec) answer ∷ h)
  updated-IsEnsured old attrs got (err e) m h at has called done = cc
  updated-IsEnsured old attrs got (ok a) m h at has called done =
      let patch = bucket_patch got b.spec in
      let same = (bucket_patch-converges got b.spec).0 in
      let (kept, q, at', has', same') =
        keeps.updates h (bucket_name_from_cr b) patch old a got at has called
          (same-IsStorable same desired-IsStorable) in
      (kept, q, at', has', SameProperties-trans same' same)

  apply_changes-IsEnsured :
      (old attrs : BucketAttrs) (got : BucketProperties) (h : List Call)
      → stored h (bucket_name_from_cr b) ≡ some old
      → old.properties ≡ some got
      → (apply_changes client text b old (bucket_patch got b.spec) h).0 ≡ returns (ok attrs)
      → IsEnsured (apply_changes client text b old (bucket_patch got b.spec) h).1
  unfolding apply_changes
  apply_changes-IsEnsured old attrs got h at has e =
      elim (Bool-cases (has_changes (bucket_patch got b.spec))) [
        | inl changed ↦
            rw changed (updated-IsEnsured old attrs got _ _ h at has refl (rw changed at e))
        | inr same ↦ rw same (old, got, at, has, (bucket_patch-converges got b.spec).1.0 same)
      ]

  apply_found-IsEnsured :
      (old attrs : BucketAttrs) (found : Option BucketProperties) (h : List Call)
      → stored h (bucket_name_from_cr b) ≡ some old
      → old.properties ≡ found
      → (apply_found client text b old found h).0 ≡ returns (ok attrs)
      → IsEnsured (apply_found client text b old found h).1
  unfolding apply_found
  apply_found-IsEnsured old attrs none h at has e = cc e
  apply_found-IsEnsured old attrs (some got) h at has e =
      apply_changes-IsEnsured old attrs got h at has e

  after_get-IsEnsured :
      (answer : Result BucketAttrs) (attrs : BucketAttrs) (h : List Call)
      → client.get_bucket h (bucket_name_from_cr b) ≡ answer
      → (after_get client text b answer (bucket_get (bucket_name_from_cr b) answer ∷ h)).0
        ≡ returns (ok attrs)
      → IsEnsured (after_get client text b answer (bucket_get (bucket_name_from_cr b) answer ∷ h)).1
  unfolding after_get create_missing
  after_get-IsEnsured (err e) attrs h called r = elim (Bool-cases (is_error e bucket_not_found)) [
    | inl missing ↦ rw missing (created-IsEnsured _ attrs _ _ refl (rw missing at r))
    | inr other ↦ absurd (cc (rw other at r))
  ]
  after_get-IsEnsured (ok a) attrs h called r =
      let name = bucket_name_from_cr b in
      elim (Bool-cases (a.location == text.to_upper b.spec.location)) [
        | inl same ↦ rw same (
            apply_found-IsEnsured a attrs a.properties _
              (keeps.asks h name name (ok a) ∙ keeps.tells h name a called) refl (rw same at r))
        | inr other ↦ absurd (cc (rw other at r))
      ]

  -- With a client that keeps buckets: when `EnsureBucket` returns without an error, the cloud holds
  -- the bucket with the properties that its spec asks for, created, updated or left as it was; if the
  -- enabled rules of the spec have positive ages, and no settings of another cloud are given.
  pub ensure_bucket-IsEnsured :
      (attrs : BucketAttrs) (h : List Call)
      → (ensure_bucket client text b h).0 ≡ returns (ok attrs)
      → IsEnsured (ensure_bucket client text b h).1
  unfolding ensure_bucket
  ensure_bucket-IsEnsured attrs h = after_get-IsEnsured _ attrs h refl
