-- ===== src/Capabilities/Supported.antt =====
-- When the specs of accesses, principals and authentications have no unsupported feature.
use vedro.Prelude.{
  String, Bool, true, false, ◌≡◌, ◌≢◌, refl, ◌↔◌, arith, eq_iff, List, [], ◌∷◌, ◌++◌,
}
use vedro.Api.Meta.{
  UnsupportedFeature, auth_method_static_credentials, auth_method_workload_identity,
}
use vedro.Api.Access.{BucketAccessSpec, object_reader, object_writer, object_admin, bucket_admin}
use vedro.Api.Principal.{
  CloudPrincipalSpec, CloudPrincipalAuthSpec, PrincipalKind, policy_managed, policy_reference,
}
use vedro.Cloud.{BucketAccessCapabilities, PrincipalCapabilities, PrincipalAuthCapabilities}
use vedro.Capabilities.{
  append_if, validate_bucket_access_capabilities, validate_principal_capabilities,
  validate_principal_auth_capabilities, supports_kind,
}

pub snoc-ne-nil {ℓ} : {A : Type ℓ} (xs : List A) (x : A) → (xs ++ x ∷ []) ≢ []
snoc-ne-nil [] x e = cc
snoc-ne-nil (y ∷ xs) x e = cc

pub append_if-nil_iff :
    (missing : Bool) (key : String) (found : List UnsupportedFeature)
    → (append_if missing key found ≡ []) ↔ ((missing ≡ false) × (found ≡ []))
unfolding append_if
append_if-nil_iff true key found = (λ e. absurd (snoc-ne-nil _ _ e), λ h. cc)
append_if-nil_iff false key found = (λ e. (refl, e), λ h. h.1)

-- An access is supported exactly when its level, if it is one of the four, is among the provider's
-- capabilities.
pub validate_bucket_access_capabilities_iff :
    (caps : BucketAccessCapabilities) (spec : BucketAccessSpec)
    → (validate_bucket_access_capabilities caps spec ≡ []) ↔ (
        (spec.access.level ≡ bucket_admin → caps.bucket_admin ≡ true)
        × (spec.access.level ≡ object_admin → caps.object_admin ≡ true)
        × (spec.access.level ≡ object_writer → caps.object_writer ≡ true)
        × (spec.access.level ≡ object_reader → caps.object_reader ≡ true))
unfolding validate_bucket_access_capabilities append_if
validate_bucket_access_capabilities_iff caps spec = ground (
  arith,
  eq_iff spec.access.level bucket_admin,
  eq_iff spec.access.level object_admin,
  eq_iff spec.access.level object_writer,
  eq_iff spec.access.level object_reader,
)

-- A principal's spec is supported exactly when its kind is among the managed kinds if it is
-- managed, and among the referenced kinds if it is referenced.
pub validate_principal_capabilities_iff :
    (caps : PrincipalCapabilities) (spec : CloudPrincipalSpec)
    → (validate_principal_capabilities caps spec ≡ []) ↔ (
        (spec.management_policy ≡ policy_managed
          → supports_kind caps.managed_kinds spec.kind ≡ true)
        × (spec.management_policy ≡ policy_reference
            → supports_kind caps.referenced_kinds spec.kind ≡ true))
unfolding validate_principal_capabilities append_if
validate_principal_capabilities_iff caps spec = ground (
  arith,
  eq_iff spec.management_policy policy_managed,
  eq_iff spec.management_policy policy_reference,
)

-- An authentication is supported exactly when its method is a capability of the provider, and the
-- method serves the kind of the principal.
pub validate_principal_auth_capabilities_iff :
    (caps : PrincipalAuthCapabilities) (spec : CloudPrincipalAuthSpec) (kind : PrincipalKind)
    → (validate_principal_auth_capabilities caps spec kind ≡ []) ↔ (
        (spec.method ≡ auth_method_static_credentials
          → (caps.static_credentials ≡ true)
            × (supports_kind caps.static_credentials_kinds kind ≡ true))
        × (spec.method ≡ auth_method_workload_identity
            → (caps.workload_identity ≡ true)
              × (supports_kind caps.workload_identity_kinds kind ≡ true)))
unfolding validate_principal_auth_capabilities append_if
validate_principal_auth_capabilities_iff caps spec kind = ground (
  arith,
  eq_iff spec.method auth_method_static_credentials,
  eq_iff spec.method auth_method_workload_identity,
)
