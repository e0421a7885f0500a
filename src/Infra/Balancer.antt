-- ===== src/Infra/Balancer.antt =====
-- Load balancers and their worker.
pub mod Repo
pub mod Service
pub mod Worker
pub mod Life
pub mod Reads
pub mod Steps
pub mod Requests
pub mod Passes
pub mod Health
pub mod Round
pub mod Refines
pub mod Create
