-- ===== src/Tests/Specs.antt =====
-- What a provider supports, the names of a bucket, and the members of IAM policies.
use vedro.Prelude.{◌≡◌, ◌⊎◌, ◌↔◌, refl, true, some, none, [], ◌∷◌, ◌⧺◌}
use vedro.Prelude.Int.{pos}
use vedro.Tests.Fixtures.{full_capabilities, active_bucket, deleted_bucket}
use vedro.Api.Access.{BucketAccessSpec, zero_bucket_access}
use vedro.Api.Bucket.{BucketSpec}
use vedro.Api.Principal.{CloudPrincipalSpec, CloudPrincipalAuthSpec, zero_cloud_principal}
use vedro.Capabilities.{
  supports_kind, validate_bucket_capabilities, validate_principal_capabilities,
  validate_principal_auth_capabilities,
}
use vedro.Capabilities.Buckets.{BucketSupported, validate_bucket_capabilities_iff}
use vedro.Capabilities.Supported.{
  validate_principal_capabilities_iff, validate_principal_auth_capabilities_iff,
}
use vedro.Helpers.{bucket_name_from_cr}
use vedro.Helpers.Member.{parse_iam_member_string, parse_iam_member_string-print}
use vedro.Validation.{validate_name_immutability}
use vedro.Validation.Immutability.{validate_name_immutability_iff}

abbrev ice_spec : BucketSpec
ice_spec = record active_bucket.spec {
  storage_class = "Ice";
  versioning = some (record { enabled = true });
  lifecycle = some (record {
    rules = some (
        record { name = some "old"; enabled = true; age_days = some (pos 30); action = "Delete" }
        ∷ []);
  });
}

validate_bucket_capabilities_iff_example :
    (validate_bucket_capabilities full_capabilities.bucket ice_spec ≡ [])
    ↔ BucketSupported full_capabilities.bucket ice_spec
validate_bucket_capabilities_iff_example =
    validate_bucket_capabilities_iff full_capabilities.bucket ice_spec

abbrev admin_spec : BucketAccessSpec
admin_spec = record zero_bucket_access.spec { access = record { level = "BucketAdmin" } }

abbrev group_spec : CloudPrincipalSpec
group_spec = record zero_cloud_principal.spec { kind = "Group"; management_policy = "Managed" }

validate_principal_capabilities_iff_example :
    (validate_principal_capabilities full_capabilities.principal group_spec ≡ []) ↔ (
      (group_spec.management_policy ≡ "Managed"
        → supports_kind full_capabilities.principal.managed_kinds "Group" ≡ true)
      × (group_spec.management_policy ≡ "Reference"
          → supports_kind full_capabilities.principal.referenced_kinds "Group" ≡ true))
validate_principal_capabilities_iff_example =
    validate_principal_capabilities_iff full_capabilities.principal group_spec

abbrev keys_spec : CloudPrincipalAuthSpec
keys_spec = record {
  principal_ref = record { name = "robot"; namespace = "team" };
  method = "StaticCredentials";
  static_credentials = none;
  workload_identity = none;
}

validate_principal_auth_capabilities_iff_example :
    (validate_principal_auth_capabilities full_capabilities.principal_auth keys_spec "User" ≡ [])
    ↔ ((keys_spec.method ≡ "StaticCredentials"
          → (full_capabilities.principal_auth.static_credentials ≡ true)
            × (supports_kind full_capabilities.principal_auth.static_credentials_kinds "User"
                ≡ true))
        × (keys_spec.method ≡ "WorkloadIdentity"
            → (full_capabilities.principal_auth.workload_identity ≡ true)
              × (supports_kind full_capabilities.principal_auth.workload_identity_kinds "User"
                  ≡ true)))
validate_principal_auth_capabilities_iff_example =
    validate_principal_auth_capabilities_iff full_capabilities.principal_auth keys_spec "User"

validate_name_immutability_iff_example :
    ((validate_name_immutability "" "data" "data").valid ≡ true) ↔ (
      (deleted_bucket.status.external_name ≡ "")
      ⊎ (deleted_bucket.status.external_name ≡ bucket_name_from_cr deleted_bucket))
validate_name_immutability_iff_example = validate_name_immutability_iff deleted_bucket

parse_iam_member_string-print_example :
    (parse_iam_member_string ("serviceAccount" ⧺ ":" ⧺ "robot") ≡ ("serviceAccount", "robot"))
    × (parse_iam_member_string "serviceAccount" ≡ ("", "serviceAccount"))
parse_iam_member_string-print_example = parse_iam_member_string-print "serviceAccount" "robot" refl
