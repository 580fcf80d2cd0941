-- ===== src/Tests.antt =====
-- Concrete inputs, and the results on them.
mod Fixtures
mod Reconcilers
mod Accesses
mod Policies
mod Specs
mod Gcp
mod Principals
mod Configs
mod Storage
mod Progress
mod Iam
mod Gcs
mod Grants
