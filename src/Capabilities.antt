-- ===== src/Capabilities.antt =====
-- internal/capabilities: the features that a spec asks for and its provider does not support.
pub mod Features
pub mod Supported
pub mod Buckets
use vedro.Prelude.{
  ℕ, suc, String, ◌⧺◌, sprintf_d, Bool, true, false, not, ◌==◌, ◌&&◌, ◌||◌, Option, none, some,
  is_some, List, [], ◌∷◌, ◌++◌, is_empty, if◌then◌else◌,
}
use vedro.Api.Meta.{
  UnsupportedFeature, auth_method_static_credentials, auth_method_workload_identity,
}
use vedro.Api.Bucket.{
  BucketSpec, BucketLifecycle, BucketLifecycleRule, Labels, storage_class_warm, storage_class_cold,
  storage_class_ice,
}
use vedro.Api.Access.{BucketAccessSpec, object_reader, object_writer, object_admin, bucket_admin}
use vedro.Api.Principal.{
  CloudPrincipalSpec, CloudPrincipalAuthSpec, PrincipalKind, policy_managed, policy_reference,
}
use vedro.Cloud.{
  KindMap, BucketCapabilities, BucketAccessCapabilities, PrincipalCapabilities,
  PrincipalAuthCapabilities, lifecycle_supported,
}
use vedro.Capabilities.Features.{unsupported_feature}

-- `if missing { unsupported = append(unsupported, unsupportedFeatures[key]) }`.
unfoldable pub append_if : Bool → String → List UnsupportedFeature → List UnsupportedFeature
append_if missing key found = if missing then found ++ unsupported_feature key ∷ [] else found

-- The elements of a slice; none for the nil slice.
abbrev pub elems {ℓ} : {A : Type ℓ} → Option (List A) → List A
elems none = []
elems (some xs) = xs

-- `lifecycleHasExpiredRule`: the index of the first rule with an age.
unfoldable pub lifecycle_has_expired_rule : ℕ → List BucketLifecycleRule → Option ℕ
lifecycle_has_expired_rule i [] = none
lifecycle_has_expired_rule i (r ∷ rs) =
    if is_some r.age_days then some i else lifecycle_has_expired_rule (suc i) rs

-- `lifecycleHasNamedRule`: the index of the first rule with a name.
unfoldable pub lifecycle_has_named_rule : ℕ → List BucketLifecycleRule → Option ℕ
lifecycle_has_named_rule i [] = none
lifecycle_has_named_rule i (r ∷ rs) =
    if is_some r.name then some i else lifecycle_has_named_rule (suc i) rs

-- The feature of a rule, with the rule's index in its field.
unfoldable pub rule_feature : String → ℕ → UnsupportedFeature
rule_feature key i = let f = unsupported_feature key in record f { field = sprintf_d f.field i }

abbrev pub append_rule :
    Option ℕ → Bool → String → List UnsupportedFeature → List UnsupportedFeature
append_rule none supported key found = found
append_rule (some i) supported key found =
    if not supported then found ++ rule_feature key i ∷ [] else found

-- The three tests of `ValidateBucketCapabilities` on the lifecycle.
unfoldable pub lifecycle_features :
    BucketCapabilities → Option BucketLifecycle → List UnsupportedFeature → List UnsupportedFeature
lifecycle_features caps none found = found
lifecycle_features caps (some lifecycle) found =
    if not (lifecycle_supported caps)
    then found ++ unsupported_feature "Lifecycle" ∷ []
    else append_rule (lifecycle_has_named_rule 0 (elems lifecycle.rules)) caps.lifecycle.rule_names
        "LifecycleNamed"
        (append_rule (lifecycle_has_expired_rule 0 (elems lifecycle.rules))
          caps.lifecycle.rule_expiration "LifecycleEpiration" found)

-- `ValidateBucketCapabilities`.
unfoldable pub validate_bucket_capabilities :
    BucketCapabilities → BucketSpec → List UnsupportedFeature
validate_bucket_capabilities caps spec =
    let f₁ = append_if (is_some spec.versioning && not caps.versioning) "Versioning" [] in
    let f₂ = lifecycle_features caps spec.lifecycle f₁ in
    let f₃ = append_if (not (is_empty (elems spec.labels)) && not caps.labels) "Labels" f₂ in
    let f₄ =
      append_if (is_some spec.public_access_prevention && not caps.public_access_prevention)
        "PublicAccessPrevention" f₃ in
    let f₅ =
      append_if (spec.storage_class == storage_class_warm && not caps.storage_class.warm)
        "StorageClassWarm" f₄ in
    let f₆ =
      append_if (spec.storage_class == storage_class_ice && not caps.storage_class.ice)
        "StorageClassIce" f₅ in
    append_if (spec.storage_class == storage_class_cold && not caps.storage_class.cold)
      "StorageClassCold" f₆

-- `ValidateBucketAccessCapabilities`.
unfoldable pub validate_bucket_access_capabilities :
    BucketAccessCapabilities → BucketAccessSpec → List UnsupportedFeature
validate_bucket_access_capabilities caps spec =
    let level = spec.access.level in
    let f₁ = append_if (level == bucket_admin && not caps.bucket_admin) "BucketAdmin" [] in
    let f₂ = append_if (level == object_admin && not caps.object_admin) "ObjectAdmin" f₁ in
    let f₃ = append_if (level == object_writer && not caps.object_writer) "ObjectWriter" f₂ in
    append_if (level == object_reader && not caps.object_reader) "ObjectReader" f₃

-- `supported, ok := kinds[kind]` and then `ok && supported`.
unfoldable pub supports_kind : KindMap → PrincipalKind → Bool
supports_kind [] kind = false
supports_kind ((k, supported) ∷ kinds) kind =
    if k == kind then supported else supports_kind kinds kind

-- `ValidatePrincipalCapabilities`.
unfoldable pub validate_principal_capabilities :
    PrincipalCapabilities → CloudPrincipalSpec → List UnsupportedFeature
validate_principal_capabilities caps spec =
    let f₁ =
      append_if
        (spec.management_policy == policy_managed
          && not (supports_kind caps.managed_kinds spec.kind))
        ("Managed" ⧺ spec.kind) [] in
    append_if
      (spec.management_policy == policy_reference
        && not (supports_kind caps.referenced_kinds spec.kind))
      ("Referenced" ⧺ spec.kind) f₁

-- `ValidatePrincipalAuthCapabilities`.
unfoldable pub validate_principal_auth_capabilities :
    PrincipalAuthCapabilities → CloudPrincipalAuthSpec → PrincipalKind → List UnsupportedFeature
validate_principal_auth_capabilities caps spec kind =
    let static = spec.method == auth_method_static_credentials in
    let workload = spec.method == auth_method_workload_identity in
    let f₁ = append_if (static && not caps.static_credentials) "MethodStaticCredentials" [] in
    let f₂ =
      append_if (static && not (supports_kind caps.static_credentials_kinds kind))
        "StaticCredentialsKind" f₁ in
    let f₃ = append_if (workload && not caps.workload_identity) "MethodWorkloadIdentity" f₂ in
    append_if (workload && not (supports_kind caps.workload_identity_kinds kind))
      "WorkloadIdentityKind" f₃
