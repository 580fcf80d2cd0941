-- ===== src/Controller/Accesses.antt =====
-- internal/controller/bucket_access_controller.go, in stretches as the bucket controller.
pub mod Delete
pub mod Apply
pub mod Reconcile
pub mod Patches
pub mod Ensure
pub mod Removal
