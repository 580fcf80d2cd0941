-- ===== src/Gcp/Storage/Settled.antt =====
-- A bucket that was created from a spec and is read back: internal/cloud/gcp/bucket_api.go between
-- the two halves of `EnsureBucket`.
use vedro.Prelude.{
  Bool, true, false, ◌≡◌, ◌⊎◌, inl, inr, refl, sym, ap, ◌∙◌, subst, Option, none, some, List, [],
  ◌∷◌, arith, All, Bool-cases, String,
}
use vedro.Prelude.Int.{ℤ, pos, ltb_ℤ}
use vedro.Errors.{ok}
use vedro.Api.Bucket.{
  BucketSpec, BucketLifecycle, BucketLifecycleRule, BucketCloudSpecificConfig, BucketGcpConfig,
  BucketYcConfig, SoftDeletePolicy, BucketVersioning, BucketProperties,
}
use vedro.Capabilities.{elems}
use vedro.Cloud.{BucketAttrs, has_changes}
use vedro.Gcp.Normalization.{
  enabled_rules, normalized_lifecycle, normalized_prevention, normalized_versioning,
  normalized_cloud_specific, desired_properties, appended, elems-appended,
}
use vedro.Gcp.Patch.{bucket_patch, bucket_patch-converges, SameProperties}
use vedro.Gcp.Storage.{
  GcsAttrs, PublicAccessPrevention, to_gcs_attrs, from_gcs_attrs, condition_of, from_cloud_specific,
  to_cloud_specific,
}
use vedro.Gcp.Storage.RoundTrip.{
  when_on, kept_rules, kept_lifecycle, kept_properties, read_back, to_gcs_attrs-round,
}

-- The rule is not enabled, or has a positive age.
abbrev pub HasAge : BucketLifecycleRule → Type 0
HasAge r = (r.enabled ≡ false) ⊎ ((d : ℤ) × (r.age_days ≡ some d) × (ltb_ℤ (pos 0) d ≡ true))

abbrev pub rules_of : Option BucketLifecycle → List BucketLifecycleRule
rules_of none = []
rules_of (some l) = elems l.rules

-- The settings are for no other cloud.
abbrev pub YcIsUnset : Option BucketCloudSpecificConfig → Type 0
YcIsUnset none = Unit
YcIsUnset (some cfg) = cfg.yc ≡ none

condition_of-age :
    (a : Option ℤ) (d : ℤ) → a ≡ some d → ltb_ℤ (pos 0) d ≡ true → condition_of a ≡ some d
condition_of-age none d e positive = cc e
condition_of-age (some x) d e positive = ground (arith, e, positive)

kept-rule :
    (r : BucketLifecycleRule) (rest : List BucketLifecycleRule)
    → r.enabled ≡ true
    → HasAge r
    → kept_rules rest ≡ rest
    → kept_rules (record r { name = none } ∷ rest) ≡ record r { name = none } ∷ rest
unfolding kept_rules
kept-rule r rest on (inl off) same = cc (on, off)
kept-rule r rest on (inr (d, age, positive)) same =
    ground (arith, condition_of-age r.age_days d age positive)

kept-enabled :
    (rs : List BucketLifecycleRule)
    → All HasAge rs
    → kept_rules (enabled_rules rs) ≡ enabled_rules rs
unfolding kept_rules enabled_rules
kept-enabled [] aged = refl
kept-enabled (r ∷ rs) aged =
    let ih = kept-enabled rs aged.1 in
    elim (Bool-cases r.enabled) [
      | inl on ↦
          subst (λ x. kept_rules x ≡ x)
            (sym (
              when_on r.enabled (enabled_rules rs) (record r { name = none } ∷ enabled_rules rs)
                on))
            (kept-rule r (enabled_rules rs) on aged.0 ih)
      | inr off ↦ rw off ih
    ]

lifecycle-kept :
    (l : Option BucketLifecycle)
    → All HasAge (rules_of l)
    → some (kept_lifecycle (normalized_lifecycle l)) ≡ normalized_lifecycle l
unfolding kept_lifecycle kept_rules normalized_lifecycle enabled_rules
lifecycle-kept none aged = refl
lifecycle-kept (some l) aged =
    ap (λ rs. some (record { rules = appended rs }))
      (ap kept_rules (elems-appended (enabled_rules (elems l.rules)))
        ∙ kept-enabled (elems l.rules) aged)

-- The normalized settings are read back as they are.
abbrev Kept : Option BucketCloudSpecificConfig → Type 0
Kept c =
    to_cloud_specific (some (from_cloud_specific (normalized_cloud_specific c)))
    ≡ normalized_cloud_specific c

prevention-kept :
    (p : Option Bool) → normalized_prevention (normalized_prevention p) ≡ normalized_prevention p
prevention-kept none = refl
prevention-kept (some p) = refl

versioning-kept :
    (v : Option BucketVersioning)
    → normalized_versioning (normalized_versioning v) ≡ normalized_versioning v
versioning-kept none = refl
versioning-kept (some v) = refl

policy-Kept :
    (p : Option SoftDeletePolicy) (y : Option BucketYcConfig)
    → y ≡ none
    → Kept (some (record { gcp = some (record { soft_delete_policy = p }); yc = y }))
unfolding normalized_cloud_specific
policy-Kept none y unset = refl
policy-Kept (some p) y unset =
    ap (λ z. some (record { gcp = some (record { soft_delete_policy = some p }); yc = z }))
      (sym unset)

gcp-Kept :
    (g : Option BucketGcpConfig) (y : Option BucketYcConfig)
    → y ≡ none
    → Kept (some (record { gcp = g; yc = y }))
unfolding normalized_cloud_specific
gcp-Kept none y unset = refl
gcp-Kept (some g) y unset = policy-Kept g.soft_delete_policy y unset

cloud_specific-Kept : (c : Option BucketCloudSpecificConfig) → YcIsUnset c → Kept c
unfolding normalized_cloud_specific
cloud_specific-Kept none unset = refl
cloud_specific-Kept (some c) unset = gcp-Kept c.gcp c.yc unset

pub desired-kept :
    (spec : BucketSpec)
    → All HasAge (rules_of spec.lifecycle)
    → YcIsUnset spec.cloud_specific_config
    → SameProperties (kept_properties (desired_properties spec)) (desired_properties spec)
unfolding desired_properties
desired-kept spec aged unset = record {
  prevention = prevention-kept spec.public_access_prevention;
  versioning = versioning-kept spec.versioning;
  lifecycle = lifecycle-kept spec.lifecycle aged;
  storage_class = refl;
  labels = refl;
  cloud_specific_config = cloud_specific-Kept spec.cloud_specific_config unset;
}

module _ (delete_action : String) (print_prevention : PublicAccessPrevention → String) where
  -- A bucket that Cloud Storage holds as it was created from a spec is read back without a change to
  -- make, if its enabled rules have positive ages and no settings of another cloud are given.
  pub created-IsSettled :
      (spec : BucketSpec) (a : BucketAttrs) (gcs : GcsAttrs)
      → a.properties ≡ some (desired_properties spec)
      → to_gcs_attrs delete_action a ≡ ok gcs
      → All HasAge (rules_of spec.lifecycle)
      → YcIsUnset spec.cloud_specific_config
      → (p : BucketProperties) × (from_gcs_attrs delete_action print_prevention gcs
          ≡ ok (record a { id = a.name; properties = some p }))
        × (has_changes (bucket_patch p spec) ≡ false)
  created-IsSettled spec a gcs wanted made aged unset =
      let p = kept_properties (desired_properties spec) in
      (
        p,
        to_gcs_attrs-round delete_action print_prevention a gcs made
            ∙ ap (read_back delete_action print_prevention a) wanted,
        (bucket_patch-converges _ spec).1.1 (desired-kept spec aged unset),
      )
