-- ===== src/Infra/Storage.antt =====
-- Volumes and snapshots.
pub mod Repo
pub mod Service
pub mod Create
pub mod Snapshots
