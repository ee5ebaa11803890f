-- ===== src/PublicApi.antt =====
-- src/public-api: the calls of outside users, their quotas and the load that they make.
pub mod Tables
pub mod Quota
pub mod Load
pub mod Sweep
mod Tests
