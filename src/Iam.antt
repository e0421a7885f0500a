-- ===== src/Iam.antt =====
-- Users, roles, permissions, API keys, logins and password resets.
pub mod Types
pub mod Repo
pub mod Rbac
pub mod Http
pub mod Access
pub mod Identity
pub mod Auth
pub mod Reset
pub mod Lockout
pub mod Tokens
pub mod Keys
mod Tests
