-- ===== src/Scaling.antt =====
-- Auto-scaling groups: the service, the repository and the worker that reconciles.
pub mod Types
pub mod Repo
pub mod Service
pub mod Reconcile
pub mod Worker
pub mod Requests
pub mod Policies
pub mod Cleanup
pub mod Room
pub mod Bounds
mod Tests
