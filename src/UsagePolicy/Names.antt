-- ===== src/UsagePolicy/Names.antt =====
-- When a name is allowed, and when the patterns that are asked compile.
use vedro.Prelude.{
  String, true, ◌≡◌, ◌≢◌, ◌↔◌, ◌⊎◌, arith, List, [], ◌∷◌, All, is_some, if◌then◌else◌,
}
use vedro.Api.Provider.{UsagePolicySpec}
use vedro.Api.Bucket.{Bucket}
use vedro.Helpers.{bucket_name_from_cr, bucket_name_for_delete}
use vedro.UsagePolicy.{Regexp, Outcome, returns, panics, Decision, is_name_allowed, check_bucket}
use vedro.UsagePolicy.Namespaces.{IsPermitted, is_namespace_allowed_iff}

-- The outcome is a decision that allows.
abbrev pub Allows : Outcome Decision → Type 0
Allows panics = ⊥
Allows (returns d) = d.allowed ≡ true

module _ (re : Regexp) where
  -- Some pattern of the list matches the name.
  abbrev pub AnyMatch : String → List String → Type 0
  AnyMatch name [] = ⊥
  AnyMatch name (p ∷ ps) = (re.matches p name ≡ true) ⊎ AnyMatch name ps

  abbrev pub AllCompile : List String → Type 0
  AllCompile = All (λ p. re.compiles p ≡ true)

  pub is_name_allowed_iff :
      (name : String) (ps : List String)
      → AllCompile ps
      → Allows (is_name_allowed re name ps) ↔ AnyMatch name ps
  unfolding is_name_allowed
  is_name_allowed_iff name [] h = (λ x. cc, λ x. absurd x)
  is_name_allowed_iff name (p ∷ ps) h = ground (arith, is_name_allowed_iff name ps h.1)

  pub is_name_allowed-ne-panics :
      (name : String) (ps : List String) → AllCompile ps → is_name_allowed re name ps ≢ panics
  unfolding is_name_allowed
  is_name_allowed-ne-panics name [] h e = cc
  is_name_allowed-ne-panics name (p ∷ ps) h e =
      ground (arith, is_name_allowed-ne-panics name ps h.1)

  -- The name by which a bucket is checked.
  abbrev pub checked_name : Bucket → String
  checked_name b =
      if is_some b.metadata.deletion_timestamp
      then bucket_name_for_delete b
      else bucket_name_from_cr b

  -- With a policy whose bucket patterns compile, a bucket is allowed exactly when its namespace is
  -- permitted and a pattern matches its name; and the check does not panic.
  pub check_bucket_iff :
      (spec : UsagePolicySpec) (b : Bucket)
      → AllCompile spec.bucket_policy.allowed_name_patterns
      → (Allows (check_bucket re spec b) ↔ (
          IsPermitted spec.allowed_namespaces b.metadata.namespace
          × AnyMatch (checked_name b) spec.bucket_policy.allowed_name_patterns))
        × (check_bucket re spec b ≢ panics)
  unfolding check_bucket
  check_bucket_iff spec b h = ground (
    arith,
    is_namespace_allowed_iff b.metadata.namespace spec.allowed_namespaces,
    is_name_allowed_iff (checked_name b) spec.bucket_policy.allowed_name_patterns h,
    is_name_allowed-ne-panics (checked_name b) spec.bucket_policy.allowed_name_patterns h,
  )
