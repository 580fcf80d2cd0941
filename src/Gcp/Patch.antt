-- ===== src/Gcp/Patch.antt =====
-- The patch that `EnsureBucket` of internal/cloud/gcp/bucket.go makes for a bucket that exists.
use vedro.Prelude.{String, false, ◌≡◌, ◌↔◌, refl, Option, List, arith, String-discrete}
use vedro.Api.Bucket.{
  BucketSpec, BucketProperties, Labels-discrete, PublicAccessPrevention-discrete,
  BucketVersioning-discrete, BucketLifecycle-discrete, BucketCloudSpecificConfig-discrete,
}
use vedro.Cloud.{Change, unset, set, is_set, BucketPatch, has_changes}
use vedro.Capabilities.{elems}
use vedro.Gcp.Normalization.{
  normalized_versioning, normalized_prevention, normalized_lifecycle, normalized_cloud_specific,
  desired_properties,
}

-- `if !equal { patch.F = helpers.PatchTo(desired) }`.
abbrev pub unless_equal : {A : Type 0} → {P : Type 0} → Dec P → A → Change A
unless_equal (yes p) a = unset
unless_equal (no n) a = set a

-- The patch; `maps.Equal` takes a nil map for an empty one.
unfoldable pub bucket_patch : BucketProperties → BucketSpec → BucketPatch
bucket_patch got spec = record {
  storage_class =
      unless_equal (String-discrete got.storage_class spec.storage_class) spec.storage_class;
  labels = unless_equal (Labels-discrete (elems got.labels) (elems spec.labels)) spec.labels;
  versioning =
      unless_equal
        (BucketVersioning-discrete got.versioning (normalized_versioning spec.versioning))
        (normalized_versioning spec.versioning);
  public_access_prevention =
      unless_equal
        (PublicAccessPrevention-discrete got.public_access_prevention
          (normalized_prevention spec.public_access_prevention))
        (normalized_prevention spec.public_access_prevention);
  lifecycle =
      unless_equal (BucketLifecycle-discrete got.lifecycle (normalized_lifecycle spec.lifecycle))
        (normalized_lifecycle spec.lifecycle);
  cloud_specific_config =
      unless_equal
        (BucketCloudSpecificConfig-discrete got.cloud_specific_config
          (normalized_cloud_specific spec.cloud_specific_config))
        (normalized_cloud_specific spec.cloud_specific_config);
}

-- What a patch means: a field that is set replaces the property.
abbrev pub changed : {A : Type 0} → Change A → A → A
changed unset a = a
changed (set b) a = b

abbrev pub apply_patch : BucketPatch → BucketProperties → BucketProperties
apply_patch p got = record {
  public_access_prevention = changed p.public_access_prevention got.public_access_prevention;
  versioning = changed p.versioning got.versioning;
  lifecycle = changed p.lifecycle got.lifecycle;
  storage_class = changed p.storage_class got.storage_class;
  labels = changed p.labels got.labels;
  cloud_specific_config = changed p.cloud_specific_config got.cloud_specific_config;
}

-- The same properties, with labels that are nil and empty taken for the same.
pub record SameProperties (a b : BucketProperties) : Type 0 where
  pub prevention : a.public_access_prevention ≡ b.public_access_prevention
  pub versioning : a.versioning ≡ b.versioning
  pub lifecycle : a.lifecycle ≡ b.lifecycle
  pub storage_class : a.storage_class ≡ b.storage_class
  pub labels : elems a.labels ≡ elems b.labels
  pub cloud_specific_config : a.cloud_specific_config ≡ b.cloud_specific_config

changed-unless_equal :
    {A : Type 0} → (got a : A) (d : Dec (got ≡ a)) → changed (unless_equal d a) got ≡ a
changed-unless_equal got a (yes p) = p
changed-unless_equal got a (no n) = refl

changed-labels :
    (got want : Option (List (String × String))) (d : Dec (elems got ≡ elems want))
    → elems (changed (unless_equal d want) got) ≡ elems want
changed-labels got want (yes p) = p
changed-labels got want (no n) = refl

is_set-unless_equal :
    {A : Type 0} → {P : Type 0} → (d : Dec P) (a : A) → (is_set (unless_equal d a) ≡ false) ↔ P
is_set-unless_equal (yes p) a = (λ e. p, λ p'. refl)
is_set-unless_equal (no n) a = (λ e. cc, λ p. absurd (n p))

no_changes_iff :
    (p : BucketPatch)
    → (has_changes p ≡ false) ↔ (
        (is_set p.storage_class ≡ false)
        × (is_set p.labels ≡ false)
        × (is_set p.versioning ≡ false)
        × (is_set p.public_access_prevention ≡ false)
        × (is_set p.cloud_specific_config ≡ false)
        × (is_set p.lifecycle ≡ false))
unfolding has_changes
no_changes_iff p = ground arith

module _ (got : BucketProperties) (spec : BucketSpec) where
  no_changes-SameProperties :
      has_changes (bucket_patch got spec) ≡ false → SameProperties got (desired_properties spec)
  unfolding bucket_patch desired_properties
  no_changes-SameProperties e =
      let (s, l, v, p, c, y) = (no_changes_iff (bucket_patch got spec)).0 e in
      record {
        prevention = (is_set-unless_equal _ _).0 p;
        versioning = (is_set-unless_equal _ _).0 v;
        lifecycle = (is_set-unless_equal _ _).0 y;
        storage_class = (is_set-unless_equal _ _).0 s;
        labels = (is_set-unless_equal _ _).0 l;
        cloud_specific_config = (is_set-unless_equal _ _).0 c;
      }

  SameProperties-no_changes :
      SameProperties got (desired_properties spec) → has_changes (bucket_patch got spec) ≡ false
  unfolding bucket_patch desired_properties
  SameProperties-no_changes same = (no_changes_iff (bucket_patch got spec)).1 (
    (is_set-unless_equal _ _).1 same.storage_class,
    (is_set-unless_equal _ _).1 same.labels,
    (is_set-unless_equal _ _).1 same.versioning,
    (is_set-unless_equal _ _).1 same.prevention,
    (is_set-unless_equal _ _).1 same.cloud_specific_config,
    (is_set-unless_equal _ _).1 same.lifecycle,
  )

-- Applied to the properties of the bucket, the patch leaves the properties that the spec asks for;
-- and it has changes exactly when the bucket does not have them already.
pub bucket_patch-converges :
    (got : BucketProperties) (spec : BucketSpec)
    → SameProperties (apply_patch (bucket_patch got spec) got) (desired_properties spec)
      × ((has_changes (bucket_patch got spec) ≡ false)
          ↔ SameProperties got (desired_properties spec))
unfolding bucket_patch desired_properties has_changes
bucket_patch-converges got spec = (
  record {
    prevention = changed-unless_equal got.public_access_prevention _ _;
    versioning = changed-unless_equal got.versioning _ _;
    lifecycle = changed-unless_equal got.lifecycle _ _;
    storage_class = changed-unless_equal got.storage_class _ _;
    labels = changed-labels got.labels spec.labels _;
    cloud_specific_config = changed-unless_equal got.cloud_specific_config _ _;
  },
  (no_changes-SameProperties got spec, SameProperties-no_changes got spec),
)
