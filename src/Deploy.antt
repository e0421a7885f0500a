-- ===== src/Deploy.antt =====
-- Deployments of containers and the worker that reconciles them.
pub mod Types
pub mod Repo
pub mod Service
pub mod Worker
pub mod Replicas
pub mod Stale
mod Tests
