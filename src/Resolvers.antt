-- ===== src/Resolvers.antt =====
-- internal/resolvers/common.go and the tests of the five resolvers that read only the resource.
-- The methods that call the Kubernetes API are in Kube.
pub mod Ready
use vedro.Prelude.{
  ℕ, String, Bool, true, false, not, eqb, ◌==◌, ◌&&◌, ◌||◌, Option, none, some, List, [], ◌∷◌, ◌⧺◌,
  is_some, if◌then◌else◌,
}
use vedro.Conditions.{
  Condition, condition_true, condition_false, type_ready, reason_no_conditions,
  reason_generation_missmatch,
}
use vedro.Api.Meta.{DeletionPolicy, deletion_policy_delete, deletion_policy_retain, ObjectMeta}
use vedro.Api.Bucket.{Bucket}
use vedro.Api.Access.{BucketAccess}
use vedro.Api.Principal.{CloudPrincipal, CloudPrincipalAuth, policy_managed}

-- The loop of `isReady`.
unfoldable pub first_not_ready : ℕ → List Condition → Option Condition × Bool
first_not_ready gen [] = (none, true)
first_not_ready gen (c ∷ cs) =
    if not (c.status == condition_true)
    then (some c, false)
    else if not (eqb gen c.observed_generation)
    then (
      some (record {
        type = c.type;
        status = condition_false;
        observed_generation = 0;
        last_transition_time = 0;
        reason = reason_generation_missmatch;
        message = "Condition ObservedGeneration does not match CR generation";
      }),
      false,
    )
    else first_not_ready gen cs

-- `isReady`: the condition that is not ready, or `none` and `true`.
unfoldable pub is_ready : ℕ → List Condition → Option Condition × Bool
unfolding first_not_ready
is_ready gen [] = (
  some (record {
    type = type_ready;
    status = condition_false;
    observed_generation = 0;
    last_transition_time = 0;
    reason = reason_no_conditions;
    message = "No conditions found";
  }),
  false,
)
is_ready gen (c ∷ cs) = first_not_ready gen (c ∷ cs)

-- `IsBeingDeleted` of all five resolvers.
abbrev pub is_being_deleted : ObjectMeta → Bool
is_being_deleted m = is_some m.deletion_timestamp

-- `IsProvisioned`, `ShouldBeRetained` and `ShouldBeDeleted` of `BucketResolver`.
abbrev pub bucket_is_provisioned : Bucket → Bool
bucket_is_provisioned b = is_some b.status.applied

abbrev pub bucket_should_be_retained : Bucket → Bool
bucket_should_be_retained b = b.spec.deletion_policy == deletion_policy_retain

abbrev pub bucket_should_be_deleted : Bucket → Bool
bucket_should_be_deleted b = b.spec.deletion_policy == deletion_policy_delete

-- The same of `BucketAccessResolver`.
abbrev pub access_is_provisioned : BucketAccess → Bool
access_is_provisioned a = is_some a.status.applied

abbrev pub access_should_be_retained : BucketAccess → Bool
access_should_be_retained a = a.spec.deletion_policy == deletion_policy_retain

abbrev pub access_should_be_deleted : BucketAccess → Bool
access_should_be_deleted a = a.spec.deletion_policy == deletion_policy_delete

-- The test of a deletion policy in a part of the spec that may be nil.
abbrev part_has {ℓ} : {A : Type ℓ} → (A → DeletionPolicy) → Option A → DeletionPolicy → Bool
part_has f none policy = false
part_has f (some a) policy = f a == policy

-- The same of `CloudPrincipalResolver`.
abbrev pub principal_is_provisioned : CloudPrincipal → Bool
principal_is_provisioned p =
    p.status.management_policy == policy_managed && not (p.status.external_id == "")

unfoldable pub principal_should_be_retained : CloudPrincipal → Bool
principal_should_be_retained p =
    part_has (λ m. m.deletion_policy) p.spec.managed deletion_policy_retain

unfoldable pub principal_should_be_deleted : CloudPrincipal → Bool
principal_should_be_deleted p =
    part_has (λ m. m.deletion_policy) p.spec.managed deletion_policy_delete

-- The same of `CloudPrincipalAuthResolver`.
abbrev pub auth_is_provisioned : CloudPrincipalAuth → Bool
auth_is_provisioned a = is_some a.status.applied

unfoldable pub auth_should_be_retained : CloudPrincipalAuth → Bool
auth_should_be_retained a =
    part_has (λ s. s.deletion_policy) a.spec.static_credentials deletion_policy_retain
    || part_has (λ w. w.deletion_policy) a.spec.workload_identity deletion_policy_retain

unfoldable pub auth_should_be_deleted : CloudPrincipalAuth → Bool
auth_should_be_deleted a =
    part_has (λ s. s.deletion_policy) a.spec.static_credentials deletion_policy_delete
    || part_has (λ w. w.deletion_policy) a.spec.workload_identity deletion_policy_delete
