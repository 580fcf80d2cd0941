-- ===== src/Gcp.antt =====
-- internal/cloud/gcp: the provider of Google Cloud beneath the interface of internal/cloud. Its
-- buckets and accesses take a `cloud.BucketAPI` as a parameter; Storage and Gcs model the one of Google.
pub mod Normalization
pub mod Patch
pub mod Specs
pub mod Client
pub mod Buckets
pub mod Accesses
pub mod Storage
pub mod Iam
pub mod Bindings
pub mod Principals
pub mod Auths
pub mod Gcs
pub mod Provider
