-- ===== src/UsagePolicy/Namespaces.antt =====
-- The namespace test that all four checks begin with.
use vedro.Prelude.{String, true, ◌≡◌, ◌↔◌, ◌⊎◌, arith, contains}
use vedro.Api.Provider.{AllowedNamespacesSpec, UsagePolicySpec}
use vedro.Api.Access.{BucketAccess}
use vedro.Api.Principal.{CloudPrincipalAuth}
use vedro.UsagePolicy.{is_namespace_allowed, check_bucket_access, check_principal_auth}

-- A namespace is permitted if all are, or if it is named.
abbrev pub IsPermitted : AllowedNamespacesSpec → String → Type 0
IsPermitted spec namespace = (spec.all ≡ true) ⊎ (contains spec.names namespace ≡ true)

pub is_namespace_allowed_iff :
    (namespace : String) (spec : AllowedNamespacesSpec)
    → ((is_namespace_allowed namespace spec).allowed ≡ true) ↔ IsPermitted spec namespace
unfolding is_namespace_allowed
is_namespace_allowed_iff namespace spec = ground arith

-- An access and a principal's authentication are allowed exactly when their namespace is permitted.
pub check_access_and_auth_iff :
    (spec : UsagePolicySpec) (access : BucketAccess) (auth : CloudPrincipalAuth)
    → (((check_bucket_access spec access).allowed ≡ true)
        ↔ IsPermitted spec.allowed_namespaces access.metadata.namespace)
      × (((check_principal_auth spec auth).allowed ≡ true)
          ↔ IsPermitted spec.allowed_namespaces auth.metadata.namespace)
unfolding check_bucket_access check_principal_auth
check_access_and_auth_iff spec access auth = ground arith
