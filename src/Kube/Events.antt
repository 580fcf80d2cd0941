-- ===== src/Kube/Events.antt =====
-- What a reconciler asks of the Kubernetes API and of a cloud provider, each call with its answer.
-- A history lists the calls made so far, the latest first.
use vedro.Prelude.{String, Option, List}
use vedro.Prelude.Trace.{Trace}
unfoldable pub use vedro.Prelude.Trace.{◌>>=◌, ◌>>◌, pure}
use vedro.Errors.{Error, Result}
use vedro.Api.Meta.{NamespacedName, ProviderType}
use vedro.Api.Provider.{ProviderConfig}
use vedro.Api.Bucket.{Bucket}
use vedro.Api.Access.{BucketAccess}
use vedro.Api.Principal.{CloudPrincipal, CloudPrincipalAuth}
use vedro.Cloud.{Capabilities, BucketAttrs, BucketAccessAttrs, PrincipalAttrs}
use vedro.Validation.{ValidationResult}

-- The part of the interface `cloud.Provider` that makes no call.
pub record Provider : Type 0 where
  pub capabilities : Capabilities
  pub validate_provider_config_spec : ProviderConfig → ValidationResult
  pub validate_bucket_spec : Bucket → ProviderType → ValidationResult
  pub validate_principal_spec : CloudPrincipal → ValidationResult

pub data Event : Type 0 where
  bucket_get : NamespacedName → Result Bucket → Event
  bucket_list : Result (List Bucket) → Event
  bucket_update : Bucket → Result Bucket → Event
  bucket_patch : Bucket → Option Error → Event
  access_get : NamespacedName → Result BucketAccess → Event
  access_list : Result (List BucketAccess) → Event
  access_update : BucketAccess → Result BucketAccess → Event
  access_patch : BucketAccess → Option Error → Event
  access_delete : BucketAccess → Option Error → Event
  principal_get : NamespacedName → Result CloudPrincipal → Event
  principal_list : Result (List CloudPrincipal) → Event
  principal_update : CloudPrincipal → Result CloudPrincipal → Event
  principal_patch : CloudPrincipal → Option Error → Event
  auth_list : Result (List CloudPrincipalAuth) → Event
  config_get : NamespacedName → Result ProviderConfig → Event
  config_update : ProviderConfig → Result ProviderConfig → Event
  config_patch : ProviderConfig → Option Error → Event
  config_list_with : String → Result (List ProviderConfig) → Event
  auth_list_with : String → String → Result (List CloudPrincipalAuth) → Event
  provider_new : ProviderConfig → Result Provider → Event
  provider_cleanup : Option Error → Event
  external_bucket_ensure : Bucket → Result BucketAttrs → Event
  external_bucket_delete : Bucket → Option Error → Event
  external_access_ensure : Bucket → CloudPrincipal → BucketAccess → Result BucketAccessAttrs → Event
  external_access_delete : BucketAccess → Option Error → Event
  external_principal_ensure : CloudPrincipal → Result PrincipalAttrs → Event
  external_principal_delete : CloudPrincipal → Option Error → Event

abbrev pub History : Type 0
History = List Event

-- A computation that makes calls.
abbrev pub M : Type 0 → Type 0
M = Trace Event
