-- ===== src/Controller/Buckets.antt =====
-- internal/controller/bucket_controller.go. A function of the source that returns in many places is
-- one definition for each stretch between them, in the order of the source.
pub mod Delete
pub mod Apply
pub mod Reconcile
pub mod Removal
pub mod Ensure
pub mod Balance
pub mod Cleanup
pub mod Deletion
pub mod Progress
pub mod Failure
