-- ===== src/Infra/Network.antt =====
-- VPCs and subnets.
pub mod Repo
pub mod Service
pub mod Pinned
