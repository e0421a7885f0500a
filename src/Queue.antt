-- ===== src/Queue.antt =====
-- Message queues with visibility timeouts.
pub mod Types
pub mod Repo
pub mod Service
pub mod Receive
pub mod Visibility
pub mod Stored
pub mod Hidden
pub mod Exclusive
pub mod Ownership
mod Tests
