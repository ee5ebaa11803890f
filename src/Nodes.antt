-- ===== src/Nodes.antt =====
-- The processes of the nodes: the retry policy and the supervisor of src/nodes/supervisor.ts.
pub mod Policy
pub mod Supervisor
