-- ===== src/Helpers.antt =====
-- internal/helpers/helpers.go: the names of external resources, and the parser of IAM members.
pub mod Member
use vedro.Prelude.{String, Bool, Option, none, some, ◌==◌, ◌&&◌, not, if◌then◌else◌}
use vedro.Api.Bucket.{Bucket}
use vedro.Api.Principal.{CloudPrincipal, policy_managed, policy_reference}

-- `BucketNameFromCR`.
unfoldable pub bucket_name_from_cr : Bucket → String
bucket_name_from_cr b = if b.spec.name == "" then b.metadata.name else b.spec.name

-- `BucketNameForDelete`.
unfoldable pub bucket_name_for_delete : Bucket → String
unfolding bucket_name_from_cr
bucket_name_for_delete b =
    if b.status.external_name == "" then bucket_name_from_cr b else b.status.external_name

-- The name in the part of the spec that a management policy reads, if the part and its name are set.
abbrev name_of {ℓ} : {A : Type ℓ} → (A → String) → Option A → Option String
name_of f none = none
name_of f (some a) = if f a == "" then none else some (f a)

abbrev override : Bool → Option String → String → String
override chosen none old = old
override chosen (some new) old = if chosen then new else old

-- `PrincipalNameFromCR`: the second assignment, if made, overrides the first.
unfoldable pub principal_name_from_cr : CloudPrincipal → String
principal_name_from_cr p =
    let managed = name_of (λ m. m.name) p.spec.managed in
    let reference = name_of (λ r. r.name) p.spec.reference in
    override (p.spec.management_policy == policy_reference) reference
      (override (p.spec.management_policy == policy_managed) managed "")

-- `PrincipalNameForDelete`.
unfoldable pub principal_name_for_delete : CloudPrincipal → String
unfolding principal_name_from_cr
principal_name_for_delete p =
    if p.status.external_name == "" then principal_name_from_cr p else p.status.external_name
