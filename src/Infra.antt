-- ===== src/Infra.antt =====
-- Networks, instances, volumes, snapshots and load balancers, which share tables.
pub mod Types
pub mod Network
pub mod Compute
pub mod Storage
pub mod Balancer
mod Tests
