-- ===== src/UsagePolicy.antt =====
-- internal/usagepolicy/policy.go: what a ProviderConfig's usage policy allows.
-- The regular expressions of Go's `regexp` are a parameter; `MustCompile` panics at a pattern that
-- does not compile, so the checks that match names return an `Outcome`.
pub mod Namespaces
pub mod Names
pub mod Principals
use vedro.Prelude.{
  String, ◌⧺◌, Bool, true, false, not, ◌==◌, ◌&&◌, Option, is_some, List, [], ◌∷◌, contains,
  if◌then◌else◌,
}
use vedro.Api.Meta.{ObjectMeta}
use vedro.Api.Provider.{AllowedNamespacesSpec, UsagePolicySpec}
use vedro.Api.Bucket.{Bucket}
use vedro.Api.Access.{BucketAccess}
use vedro.Api.Principal.{
  CloudPrincipal, CloudPrincipalAuth, policy_managed, policy_reference, kind_all_users,
}
use vedro.Helpers.{
  bucket_name_from_cr, bucket_name_for_delete, principal_name_from_cr, principal_name_for_delete,
}

-- Go's `regexp`: does a pattern compile, and does it match a text.
pub record Regexp : Type 0 where
  pub compiles : String → Bool
  pub matches : String → String → Bool

pub data Outcome {ℓ} (A : Type ℓ) : Type ℓ where
  returns : A → Outcome A
  panics : Outcome A

pub record Decision : Type 0 where
  pub allowed : Bool
  pub message : String

-- `Allowed()`.
abbrev pub allow : Decision
allow = record { allowed = true; message = "Allowed" }

-- `Restricted(message)`.
abbrev pub restricted : String → Decision
restricted m = record { allowed = false; message = m }

-- `d = ...; if !d.Allowed { return d }` and the rest.
abbrev pub and_then : Outcome Decision → Outcome Decision → Outcome Decision
and_then panics rest = panics
and_then (returns d) rest = if not d.allowed then returns d else rest

-- `isNamespaceAllowed`.
unfoldable pub is_namespace_allowed : String → AllowedNamespacesSpec → Decision
is_namespace_allowed namespace spec =
    if spec.all
    then allow
    else if contains spec.names namespace
    then allow
    else restricted ("Namespace " ⧺ namespace ⧺ " is not allowed by ProviderConfig usagePolicy")

-- `CheckBucketAccess`.
unfoldable pub check_bucket_access : UsagePolicySpec → BucketAccess → Decision
unfolding is_namespace_allowed
check_bucket_access spec access =
    let d = is_namespace_allowed access.metadata.namespace spec.allowed_namespaces in
    if not d.allowed then d else allow

-- `CheckPrincipalAuth`.
unfoldable pub check_principal_auth : UsagePolicySpec → CloudPrincipalAuth → Decision
unfolding is_namespace_allowed
check_principal_auth spec auth =
    let d = is_namespace_allowed auth.metadata.namespace spec.allowed_namespaces in
    if not d.allowed then d else allow

module _ (re : Regexp) where
  -- `isNameAllowed`.
  unfoldable pub is_name_allowed : String → List String → Outcome Decision
  is_name_allowed name [] =
      returns (restricted ("Name " ⧺ name ⧺ " is not allowed by ProviderConfig usagePolicy"))
  is_name_allowed name (p ∷ ps) =
      let rest = is_name_allowed name ps in
      if re.compiles p then (if re.matches p name then returns allow else rest) else panics

  -- `CheckBucket`.
  unfoldable pub check_bucket : UsagePolicySpec → Bucket → Outcome Decision
  check_bucket spec bucket =
      let deleted = is_some bucket.metadata.deletion_timestamp in
      let name = if deleted then bucket_name_for_delete bucket else bucket_name_from_cr bucket in
      and_then (returns (is_namespace_allowed bucket.metadata.namespace spec.allowed_namespaces))
        (and_then (is_name_allowed name spec.bucket_policy.allowed_name_patterns) (returns allow))

  -- The part of `CheckPrincipal` for a managed principal.
  unfoldable pub check_managed : UsagePolicySpec → CloudPrincipal → String → Outcome Decision
  check_managed spec principal name =
      if principal.spec.management_policy == policy_managed
      then (if not spec.principal_policy.allow_managed
          then returns
              (restricted "Managed CloudPrincipals are not allowed by ProviderConfig usagePolicy")
          else is_name_allowed name spec.principal_policy.allowed_name_patterns)
      else returns allow

  -- The part of `CheckPrincipal` for a referenced principal.
  unfoldable pub check_reference :
      UsagePolicySpec → CloudPrincipal → String → String → Outcome Decision
  check_reference spec principal name kind =
      if principal.spec.management_policy == policy_reference
      then (if not spec.principal_policy.allow_references
          then returns (
              restricted "Referenced CloudPrincipals are not allowed by ProviderConfig usagePolicy")
          else if not (kind == kind_all_users)
          then is_name_allowed name spec.principal_policy.allowed_reference_patterns
          else returns allow)
      else returns allow

  -- `CheckPrincipal`.
  unfoldable pub check_principal : UsagePolicySpec → CloudPrincipal → Outcome Decision
  check_principal spec principal =
      let deleted = is_some principal.metadata.deletion_timestamp in
      let name =
        if deleted then principal_name_for_delete principal else principal_name_from_cr principal in
      let kind = if deleted then principal.status.kind else principal.spec.kind in
      and_then (returns (is_namespace_allowed principal.metadata.namespace spec.allowed_namespaces))
        (if not (contains spec.principal_policy.allowed_kinds kind)
          then returns (
              restricted
                ("Kind " ⧺ principal.spec.kind ⧺ " is not allowed by ProviderConfig usagePolicy"))
          else and_then (check_managed spec principal name)
              (and_then (check_reference spec principal name kind) (returns allow)))
