-- ===== src/Infra/Compute.antt =====
-- Instances.
pub mod Repo
pub mod Launch
pub mod Lifecycle
pub mod Release
pub mod Terminate
pub mod Addresses
pub mod Faults
