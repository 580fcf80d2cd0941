-- ===== src/Capabilities/Features.antt =====
-- The table `unsupportedFeatures` of internal/capabilities/common.go.
use vedro.Prelude.{String, ◌==◌, List, [], ◌∷◌, if◌then◌else◌}
use vedro.Api.Meta.{UnsupportedFeature}

abbrev feature : String → String → String → UnsupportedFeature
feature f m r = record { field = f; message = m; reason = r }

abbrev pub unsupported_features : List (String × UnsupportedFeature)
unsupported_features =
    (
      "Versioning",
      feature "spec.Versioning" "Versioning is not supported by this provider"
          "BucketUnsupportedVersioning",
    )
    ∷ (
      "Lifecycle",
      feature "spec.lifecycle" "Lifecycle is not supported by this provider"
          "BucketUnsupportedLifecycle",
    )
    ∷ (
      "LifecycleEpiration",
      feature "spec.lifecycle.rules[%d].AgeDays"
          "Object expiration is not supported by this provider"
          "BucketUnsupportedLifecycleExpiration",
    )
    ∷ (
      "LifecycleNamed",
      feature "spec.lifecycle.rules[%d].Name"
          "Named lifecycle rules are not supported by this provider"
          "BucketUnsupportedLifecycleNamed",
    )
    ∷ (
      "Labels",
      feature "spec.Labels" "Labels are not supported by this provider" "BucketUnsupportedLabels",
    )
    ∷ (
      "PublicAccessPrevention",
      feature "spec.PublicAccessPrevention"
          "PublicAccessPrevention is not supported by this provider"
          "BucketUnsupportedPublicAccessPrevention",
    )
    ∷ (
      "StorageClassWarm",
      feature "spec.StorageClass" "StorageClass Warm is not supported by this provider"
          "BucketUnsupportedStorageClass",
    )
    ∷ (
      "StorageClassIce",
      feature "spec.StorageClass" "StorageClass Ice is not supported by this provider"
          "BucketUnsupportedStorageClass",
    )
    ∷ (
      "StorageClassCold",
      feature "spec.StorageClass" "StorageClass Cold is not supported by this provider"
          "BucketUnsupportedStorageClass",
    )
    ∷ (
      "BucketAdmin",
      feature "access.level" "BucketAdmin acces is unsupported by this provider"
          "BucketAccessUnsupportedBucketAdmin",
    )
    ∷ (
      "ObjectAdmin",
      feature "access.level" "ObjectAdmin acces is unsupported by this provider"
          "BucketAccessUnsupportedObjectAdmin",
    )
    ∷ (
      "ObjectWriter",
      feature "access.level" "ObjectWriter acces is unsupported by this provider"
          "BucketAccessUnsupportedObjectWriter",
    )
    ∷ (
      "ObjectReader",
      feature "access.level" "ObjectReader acces is unsupported by this provider"
          "BucketAccessUnsupportedObjectReader",
    )
    ∷ (
      "ManagedServiceAccount",
      feature "kind;managementPolicy=Managed"
          "Managed ServiceAccounts are unsupported by this provider"
          "PrincipalUnsupportedManagedSA",
    )
    ∷ (
      "ManagedUser",
      feature "kind;managementPolicy=Managed" "Managed Users are unsupported by this provider"
          "PrincipalUnsupportedManagedUser",
    )
    ∷ (
      "ManagedGroup",
      feature "kind;managementPolicy=Managed" "Managed Groups are unsupported by this provider"
          "PrincipalUnsupportedManagedGroup",
    )
    ∷ (
      "ManagedRole",
      feature "kind;managementPolicy=Managed" "Managed Roles are unsupported by this provider"
          "PrincipalUnsupportedManagedRole",
    )
    ∷ (
      "ManagedAllUsers",
      feature "kind;managementPolicy=Managed" "Managed AllUsers is unsupported"
          "PrincipalUnsupportedManagedAllUsers",
    )
    ∷ (
      "ReferencedServiceAccount",
      feature "kind;managementPolicy=Reference"
          "Referenced ServiceAccounts are unsupported by this provider"
          "PrincipalUnsupportedReferencedSA",
    )
    ∷ (
      "ReferencedUser",
      feature "kind;managementPolicy=Reference" "Referenced Users are unsupported by this provider"
          "PrincipalUnsupportedReferencedUser",
    )
    ∷ (
      "ReferencedGroup",
      feature "kind;managementPolicy=Reference" "Referenced Groups are unsupported by this provider"
          "PrincipalUnsupportedReferencedGroup",
    )
    ∷ (
      "ReferencedRole",
      feature "kind;managementPolicy=Reference" "Referenced Roles are unsupported by this provider"
          "PrincipalUnsupportedReferencedRole",
    )
    ∷ (
      "ReferencedAllUsers",
      feature "kind;managementPolicy=Reference"
          "Referenced AllUsers is unsupported by this provider"
          "PrincipalUnsupportedReferencedAllUsers",
    )
    ∷ (
      "MethodWorkloadIdentity",
      feature "method" "Method WorkloadIdentity is unsupported"
          "PrincipalAuthUnsupportedWorkloadIdentity",
    )
    ∷ (
      "WorkloadIdentityKind",
      feature "principalRef.name" "CloudPrincipal Kind can not authenticate using WorkloadIdentity"
          "PrincipalAuthUnsupportedWorkloadIdentityKind",
    )
    ∷ (
      "MethodStaticCredentials",
      feature "method" "Method StaticCredentials is unsupported"
          "PrincipalAuthUnsupportedStaticCredentials",
    )
    ∷ (
      "StaticCredentialsKind",
      feature "principalRef.name" "StaticCredentials can not be issued for CloudPrincipals Kind"
          "PrincipalAuthUnsupportedStaticCredentialsKind",
    )
    ∷ []

-- A key that a Go map lacks reads as the zero value.
unfoldable pub feature_at : List (String × UnsupportedFeature) → String → UnsupportedFeature
feature_at [] key = feature "" "" ""
feature_at ((k, f) ∷ table) key = if k == key then f else feature_at table key

-- `unsupportedFeatures[key]`.
unfoldable pub unsupported_feature : String → UnsupportedFeature
unfolding feature_at
unsupported_feature = feature_at unsupported_features
