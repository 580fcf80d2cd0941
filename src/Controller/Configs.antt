-- ===== src/Controller/Configs.antt =====
-- internal/controller/provider_config_controller.go
pub mod Patches
pub mod Reconcile
pub mod Referenced
pub mod Removal
pub mod Ready
pub mod Cleanup
