-- ===== src/Auth.antt =====
-- src/auth: who may use the manager.
pub mod Session
pub mod Rows
pub mod Lifetime
pub mod Revoked
mod Tests
