-- ===== src/Services.antt =====
-- The agents of outward services: which agent takes a conversation (Dispatch), which machine takes
-- an agent (Placement), and which agents should run (Plan).
pub mod Dispatch
pub mod Placement
pub mod Plan
