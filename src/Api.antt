-- ===== src/Api.antt =====
-- api/v1alpha1: the custom resources.
pub mod Meta
pub mod Provider
pub mod Bucket
pub mod Access
pub mod Principal
