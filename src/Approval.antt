-- ===== src/Approval.antt =====
-- src/approval.ts: the decision on a pending prompt of a run.
pub mod Decide
pub mod Once
mod Tests
