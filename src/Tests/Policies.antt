-- ===== src/Tests/Policies.antt =====
-- The usage policy of a team, and the conditions of a resource.
use vedro.Prelude.{◌≡◌, ◌≢◌, ◌↔◌, refl, true, some, none, [], ◌∷◌, All, contains}
use vedro.Tests.Fixtures.{literal_patterns, team_policy, active_bucket, ready}
use vedro.Api.Access.{BucketAccess, zero_bucket_access}
use vedro.Api.Principal.{CloudPrincipal, CloudPrincipalAuth, zero_cloud_principal}
use vedro.Resolvers.{is_ready}
use vedro.Resolvers.Ready.{IsCurrent, is_ready_iff}
use vedro.UsagePolicy.{panics, check_bucket, check_principal}
use vedro.UsagePolicy.Namespaces.{IsPermitted}
use vedro.UsagePolicy.Names.{Allows, AnyMatch, check_bucket_iff}
use vedro.UsagePolicy.Principals.{ManagedPermitted, ReferencePermitted, check_principal_iff}
use vedro.Helpers
use vedro.Validation
use vedro.Api.Principal
use vedro.Validation.{validate_usage_policy}
use vedro.Validation.Policy.{validated_policy-ne-panics}

abbrev robot : CloudPrincipal
robot = record zero_cloud_principal {
  metadata = record zero_cloud_principal.metadata { name = "robot"; namespace = "team" };
  spec = record zero_cloud_principal.spec {
    kind = "ServiceAccount";
    management_policy = "Managed";
    managed = some (record { name = "robot"; deletion_policy = "Delete" });
  };
}

abbrev access : BucketAccess
access = record zero_bucket_access {
  metadata = record zero_bucket_access.metadata { name = "read"; namespace = "team" };
}

abbrev auth : CloudPrincipalAuth
auth = record {
  metadata = record zero_bucket_access.metadata { name = "keys"; namespace = "elsewhere" };
  spec = record {
    principal_ref = record { name = "robot"; namespace = "team" };
    method = "StaticCredentials";
    static_credentials = none;
    workload_identity = none;
  };
  status = record {
    applied = none;
    conditions = [];
    observed_generation = 0;
    observed_provider = "";
    unsupported_features = [];
  };
}

is_ready_iff_example :
    ((is_ready 1 (ready ∷ [])).1 ≡ true) ↔ ((ready ∷ [] ≢ []) × All (IsCurrent 1) (ready ∷ []))
is_ready_iff_example = is_ready_iff 1 (ready ∷ [])

check_bucket_iff_example :
    (Allows (check_bucket literal_patterns team_policy active_bucket) ↔ (
      IsPermitted team_policy.allowed_namespaces "team"
      × AnyMatch literal_patterns "data" ("data" ∷ [])))
    × (check_bucket literal_patterns team_policy active_bucket ≢ panics)
unfolding vedro.Helpers.bucket_name_from_cr
check_bucket_iff_example = check_bucket_iff literal_patterns team_policy active_bucket (refl, tt)

check_principal_iff_example :
    (Allows (check_principal literal_patterns team_policy robot) ↔ (
      IsPermitted team_policy.allowed_namespaces "team"
      × (contains team_policy.principal_policy.allowed_kinds "ServiceAccount" ≡ true)
      × ManagedPermitted literal_patterns team_policy robot "robot"
      × ReferencePermitted literal_patterns team_policy robot "robot" "ServiceAccount"))
    × (check_principal literal_patterns team_policy robot ≢ panics)
unfolding vedro.Helpers.principal_name_from_cr
check_principal_iff_example = check_principal_iff literal_patterns team_policy robot (refl, tt) tt

validated_policy-ne-panics_example :
    (check_bucket literal_patterns team_policy active_bucket ≢ panics)
    × (check_principal literal_patterns team_policy robot ≢ panics)
unfolding validate_usage_policy vedro.Validation.validate_kinds vedro.Api.Principal.valid_kind
    vedro.Validation.validate_patterns
validated_policy-ne-panics_example =
    validated_policy-ne-panics literal_patterns team_policy active_bucket robot refl
