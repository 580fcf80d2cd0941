-- ===== src/UsagePolicy/Principals.antt =====
-- What `CheckPrincipal` allows.
use vedro.Prelude.{String, true, ◌≡◌, ◌≢◌, ◌↔◌, arith, is_some, contains, eq_iff, if◌then◌else◌}
use vedro.Api.Provider.{UsagePolicySpec}
use vedro.Api.Principal.{
  CloudPrincipal, PrincipalKind, policy_managed, policy_reference, kind_all_users,
}
use vedro.Helpers.{principal_name_from_cr, principal_name_for_delete}
use vedro.UsagePolicy.{Regexp, panics, check_managed, check_reference, check_principal}
use vedro.UsagePolicy.Namespaces.{IsPermitted, is_namespace_allowed_iff}
use vedro.UsagePolicy.Names.{
  Allows, AnyMatch, AllCompile, is_name_allowed_iff, is_name_allowed-ne-panics,
}

-- The name and the kind by which a principal is checked.
abbrev pub checked_name : CloudPrincipal → String
checked_name p =
    if is_some p.metadata.deletion_timestamp
    then principal_name_for_delete p
    else principal_name_from_cr p

abbrev pub checked_kind : CloudPrincipal → PrincipalKind
checked_kind p = if is_some p.metadata.deletion_timestamp then p.status.kind else p.spec.kind

module _ (re : Regexp) (spec : UsagePolicySpec) (p : CloudPrincipal) where
  -- A managed principal needs managed ones to be allowed and a pattern that matches its name.
  abbrev pub ManagedPermitted : String → Type 0
  ManagedPermitted name =
      p.spec.management_policy ≡ policy_managed
      → (spec.principal_policy.allow_managed ≡ true)
        × AnyMatch re name spec.principal_policy.allowed_name_patterns

  -- A referenced principal needs references to be allowed and, unless it is AllUsers, a pattern.
  abbrev pub ReferencePermitted : String → PrincipalKind → Type 0
  ReferencePermitted name kind =
      p.spec.management_policy ≡ policy_reference
      → (spec.principal_policy.allow_references ≡ true)
        × (kind ≢ kind_all_users
            → AnyMatch re name spec.principal_policy.allowed_reference_patterns)

  check_managed_iff :
      (name : String)
      → AllCompile re spec.principal_policy.allowed_name_patterns
      → (Allows (check_managed re spec p name) ↔ ManagedPermitted name)
        × (check_managed re spec p name ≢ panics)
  unfolding check_managed
  check_managed_iff name h = ground (
    arith,
    eq_iff p.spec.management_policy policy_managed,
    is_name_allowed_iff re name spec.principal_policy.allowed_name_patterns h,
    is_name_allowed-ne-panics re name spec.principal_policy.allowed_name_patterns h,
  )

  check_reference_iff :
      (name : String) (kind : PrincipalKind)
      → AllCompile re spec.principal_policy.allowed_reference_patterns
      → (Allows (check_reference re spec p name kind) ↔ ReferencePermitted name kind)
        × (check_reference re spec p name kind ≢ panics)
  unfolding check_reference
  check_reference_iff name kind h = ground (
    arith,
    eq_iff p.spec.management_policy policy_reference,
    eq_iff kind kind_all_users,
    is_name_allowed_iff re name spec.principal_policy.allowed_reference_patterns h,
    is_name_allowed-ne-panics re name spec.principal_policy.allowed_reference_patterns h,
  )

  -- With a policy whose principal patterns compile, a principal is allowed exactly when its
  -- namespace is permitted, its kind is among the allowed ones, and what the policy asks of a
  -- managed and of a referenced principal holds; and the check does not panic.
  pub check_principal_iff :
      AllCompile re spec.principal_policy.allowed_name_patterns
      → AllCompile re spec.principal_policy.allowed_reference_patterns
      → (Allows (check_principal re spec p) ↔ (
          IsPermitted spec.allowed_namespaces p.metadata.namespace
          × (contains spec.principal_policy.allowed_kinds (checked_kind p) ≡ true)
          × ManagedPermitted (checked_name p)
          × ReferencePermitted (checked_name p) (checked_kind p)))
        × (check_principal re spec p ≢ panics)
  unfolding check_principal
  check_principal_iff h k = ground (
    arith,
    is_namespace_allowed_iff p.metadata.namespace spec.allowed_namespaces,
    check_managed_iff (checked_name p) h,
    check_reference_iff (checked_name p) (checked_kind p) k,
  )
