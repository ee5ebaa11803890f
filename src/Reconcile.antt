-- ===== src/Reconcile.antt =====
-- src/reconcile/index.ts: what follows from the configuration, brought in line with it.
pub mod Registry
pub mod Mirror
pub mod Boot
pub mod Heal
mod Tests
