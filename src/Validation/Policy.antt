-- ===== src/Validation/Policy.antt =====
-- `ValidateUsagePolicy` and the patterns that the checks of a usage policy compile.
use vedro.Prelude.{String, ◌≡◌, ◌≢◌, true, arith, List, [], ◌∷◌, ◌++◌, All, All-append}
use vedro.Api.Provider.{UsagePolicySpec}
use vedro.Api.Bucket.{Bucket}
use vedro.Api.Principal.{CloudPrincipal, PrincipalKind, valid_kind}
use vedro.UsagePolicy.{Regexp, panics, check_bucket, check_principal}
use vedro.UsagePolicy.Names.{AllCompile, check_bucket_iff}
use vedro.UsagePolicy.Principals.{check_principal_iff}
use vedro.Validation.{ValidationResult, validate_kinds, validate_patterns, validate_usage_policy}

validate_kinds-valid :
    (ks : List PrincipalKind) (rest : ValidationResult)
    → (validate_kinds ks rest).valid ≡ true
    → (rest.valid ≡ true) × All (λ k. valid_kind k ≡ true) ks
unfolding validate_kinds
validate_kinds-valid [] rest h = (h, tt)
validate_kinds-valid (k ∷ ks) rest h = ground (arith, validate_kinds-valid ks rest)

module _ (re : Regexp) where
  validate_patterns-valid :
      (ps : List String) → (validate_patterns re ps).valid ≡ true → AllCompile re ps
  unfolding validate_patterns
  validate_patterns-valid [] h = tt
  validate_patterns-valid (p ∷ ps) h = ground (arith, validate_patterns-valid ps)

  -- The patterns of a valid policy compile.
  pub record IsCompiled (policy : UsagePolicySpec) : Type 0 where
    pub bucket_names : AllCompile re policy.bucket_policy.allowed_name_patterns
    pub principal_names : AllCompile re policy.principal_policy.allowed_name_patterns
    pub principal_references : AllCompile re policy.principal_policy.allowed_reference_patterns

  split_patterns :
      (policy : UsagePolicySpec)
      → AllCompile re (
          (policy.bucket_policy.allowed_name_patterns
            ++ policy.principal_policy.allowed_name_patterns)
          ++ policy.principal_policy.allowed_reference_patterns)
      → IsCompiled policy
  split_patterns policy h =
      let outer = (All-append _ _ _).0 h in
      let inner = (All-append _ _ _).0 outer.0 in
      record { bucket_names = inner.0; principal_names = inner.1; principal_references = outer.1 }

  pub validate_usage_policy-IsCompiled :
      (policy : UsagePolicySpec)
      → (validate_usage_policy re policy).valid ≡ true
      → IsCompiled policy
  unfolding validate_usage_policy
  validate_usage_policy-IsCompiled policy h = split_patterns policy (
      validate_patterns-valid _ (
        ground (
          arith,
          validate_kinds-valid policy.principal_policy.allowed_kinds (
              validate_patterns re (
                (policy.bucket_policy.allowed_name_patterns
                  ++ policy.principal_policy.allowed_name_patterns)
                ++ policy.principal_policy.allowed_reference_patterns)),
        )))

  -- With a usage policy that `ValidateUsagePolicy` accepts, the check of a bucket and the check of
  -- a principal return a decision: neither meets a pattern that does not compile.
  pub validated_policy-ne-panics :
      (policy : UsagePolicySpec) (b : Bucket) (p : CloudPrincipal)
      → (validate_usage_policy re policy).valid ≡ true
      → (check_bucket re policy b ≢ panics) × (check_principal re policy p ≢ panics)
  validated_policy-ne-panics policy b p h =
      let c = validate_usage_policy-IsCompiled policy h in
      (
        (check_bucket_iff re policy b c.bucket_names).1,
        (check_principal_iff re policy p c.principal_names c.principal_references).1,
      )
