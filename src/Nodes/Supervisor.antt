-- ===== src/Nodes/Supervisor.antt =====
-- src/nodes/supervisor.ts: the lifecycle of one managed node, in three runner modes.
pub mod State
pub mod Launch
pub mod Commands
pub mod Events
pub mod Failures
pub mod Crashes
pub mod Stopping
pub mod Restarting
pub mod Probing
mod Tests
