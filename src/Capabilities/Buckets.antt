-- ===== src/Capabilities/Buckets.antt =====
-- When a bucket's spec has no unsupported feature.
use vedro.Prelude.{
  ℕ, suc, String, Bool, true, false, ◌≡◌, ◌≢◌, refl, ◌↔◌, ◌⊎◌, inl, inr, arith, ◌==◌, eq_iff, not,
  ◌&&◌, Option, none, some, is_some, List, [], ◌∷◌, is_empty, All,
}
use vedro.Api.Meta.{UnsupportedFeature}
use vedro.Api.Bucket.{
  BucketSpec, BucketLifecycle, BucketLifecycleRule, storage_class_warm, storage_class_cold,
  storage_class_ice,
}
use vedro.Cloud.{BucketCapabilities}
use vedro.Capabilities.{
  append_if, elems, append_rule, lifecycle_has_expired_rule, lifecycle_has_named_rule,
  lifecycle_features, validate_bucket_capabilities,
}
use vedro.Capabilities.Features.{unsupported_feature}
use vedro.Capabilities.Supported.{append_if-nil_iff, snoc-ne-nil}

lifecycle_has_named_rule_iff :
    (i : ℕ) (rs : List BucketLifecycleRule)
    → (lifecycle_has_named_rule i rs ≡ none) ↔ All (λ r. r.name ≡ none) rs
unfolding lifecycle_has_named_rule
lifecycle_has_named_rule_iff i [] = (λ _. tt, λ _. refl)
lifecycle_has_named_rule_iff i (r ∷ rs) = ground (arith, lifecycle_has_named_rule_iff (suc i) rs)

-- The provider has lifecycle rules, and names for them if a rule has a name.
abbrev pub LifecycleSupported : BucketCapabilities → Option BucketLifecycle → Type 0
LifecycleSupported caps none = Unit
LifecycleSupported caps (some lifecycle) =
    (caps.lifecycle.rule_expiration ≡ true)
    × ((caps.lifecycle.rule_names ≡ true) ⊎ All (λ r. r.name ≡ none) (elems lifecycle.rules))

append_rule-nil_iff :
    (o : Option ℕ) (supported : Bool) (key : String) (found : List UnsupportedFeature)
    → (append_rule o supported key found ≡ []) ↔ (((supported ≡ true) ⊎ (o ≡ none)) × (found ≡ []))
append_rule-nil_iff none supported key found = (λ e. (inr refl, e), λ h. h.1)
append_rule-nil_iff (some i) true key found = (λ e. (inl refl, e), λ h. h.1)
append_rule-nil_iff (some i) false key found =
    (λ e. absurd (snoc-ne-nil _ _ e), λ h. elim h.0 [ inl x ↦ cc | inr x ↦ cc ])

lifecycle_features-nil_iff :
    (caps : BucketCapabilities) (lifecycle : Option BucketLifecycle)
    (found : List UnsupportedFeature)
    → (lifecycle_features caps lifecycle found ≡ [])
      ↔ (LifecycleSupported caps lifecycle × (found ≡ []))
unfolding lifecycle_features
lifecycle_features-nil_iff caps none found = (λ e. (tt, e), λ h. h.1)
lifecycle_features-nil_iff caps (some l) found =
    let expired = lifecycle_has_expired_rule 0 (elems l.rules) in
    let named = lifecycle_has_named_rule 0 (elems l.rules) in
    let expiration = caps.lifecycle.rule_expiration in
    ground (
      arith,
      lifecycle_has_named_rule_iff 0 (elems l.rules),
      append_rule-nil_iff expired expiration "LifecycleEpiration" found,
      append_rule-nil_iff named caps.lifecycle.rule_names "LifecycleNamed"
          (append_rule expired expiration "LifecycleEpiration" found),
      snoc-ne-nil found (unsupported_feature "Lifecycle"),
    )

-- What a bucket's spec asks of its provider.
pub record BucketSupported (caps : BucketCapabilities) (spec : BucketSpec) : Type 0 where
  pub versioning : spec.versioning ≢ none → caps.versioning ≡ true
  pub lifecycle : LifecycleSupported caps spec.lifecycle
  pub labels : elems spec.labels ≢ [] → caps.labels ≡ true
  pub prevention : spec.public_access_prevention ≢ none → caps.public_access_prevention ≡ true
  pub warm : spec.storage_class ≡ storage_class_warm → caps.storage_class.warm ≡ true
  pub ice : spec.storage_class ≡ storage_class_ice → caps.storage_class.ice ≡ true
  pub cold : spec.storage_class ≡ storage_class_cold → caps.storage_class.cold ≡ true

-- A bucket's spec has no unsupported feature exactly when its provider supports the versioning, the
-- lifecycle with its named rules, the labels, the public access prevention and the storage class
-- that it asks for.
pub validate_bucket_capabilities_iff :
    (caps : BucketCapabilities) (spec : BucketSpec)
    → (validate_bucket_capabilities caps spec ≡ []) ↔ BucketSupported caps spec
unfolding validate_bucket_capabilities
validate_bucket_capabilities_iff caps spec =
    let m₁ = is_some spec.versioning && not caps.versioning in
    let f₁ = append_if m₁ "Versioning" [] in
    let f₂ = lifecycle_features caps spec.lifecycle f₁ in
    let m₃ = not (is_empty (elems spec.labels)) && not caps.labels in
    let f₃ = append_if m₃ "Labels" f₂ in
    let m₄ = is_some spec.public_access_prevention && not caps.public_access_prevention in
    let f₄ = append_if m₄ "PublicAccessPrevention" f₃ in
    let m₅ = spec.storage_class == storage_class_warm && not caps.storage_class.warm in
    let f₅ = append_if m₅ "StorageClassWarm" f₄ in
    let m₆ = spec.storage_class == storage_class_ice && not caps.storage_class.ice in
    let f₆ = append_if m₆ "StorageClassIce" f₅ in
    let m₇ = spec.storage_class == storage_class_cold && not caps.storage_class.cold in
    ground (
      arith,
      append_if-nil_iff m₁ "Versioning" [],
      lifecycle_features-nil_iff caps spec.lifecycle f₁,
      append_if-nil_iff m₃ "Labels" f₂,
      append_if-nil_iff m₄ "PublicAccessPrevention" f₃,
      append_if-nil_iff m₅ "StorageClassWarm" f₄,
      append_if-nil_iff m₆ "StorageClassIce" f₅,
      append_if-nil_iff m₇ "StorageClassCold" f₆,
      eq_iff spec.storage_class storage_class_warm,
      eq_iff spec.storage_class storage_class_ice,
      eq_iff spec.storage_class storage_class_cold,
    )
