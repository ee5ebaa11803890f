-- ===== src/Runner.antt =====
-- src/runner, src/frames.ts, src/pricing.ts: one turn of an agent, from its frames to the ledger.
pub mod Frames
pub mod Pricing
pub mod Summary
pub mod Turn
pub mod Waiting
pub mod Drive
mod Tests
