-- ===== src/Secrets.antt =====
-- Secrets that are stored encrypted under a key of their user.
pub mod Types
pub mod Crypto
pub mod Repo
pub mod Service
pub mod Access
mod Tests
