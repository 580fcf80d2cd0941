-- ===== src/Controller.antt =====
-- internal/controller: the reconcilers, and what they share.
pub mod Finish
pub mod Setup
pub mod Patch
pub mod Balance
pub mod Buckets
pub mod Accesses
pub mod Principals
pub mod Configs
pub mod Watches
