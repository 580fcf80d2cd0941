-- ===== src/Controller/Principals.antt =====
-- internal/controller/cloudprincipal_controller.go, in stretches as the bucket controller.
pub mod Patches
pub mod Delete
pub mod Apply
pub mod Reconcile
pub mod Ensure
pub mod Referenced
pub mod Removal
pub mod Balance
pub mod Cleanup
pub mod Deletion
