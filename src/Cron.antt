-- ===== src/Cron.antt =====
-- Jobs that run on a schedule, and the worker that runs them.
pub mod Types
pub mod Repo
pub mod Service
pub mod Worker
pub mod History
pub mod Sound
pub mod Valid
pub mod Runs
mod Tests
