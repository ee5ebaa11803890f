-- ===== src/Usage.antt =====
-- The ledger of token usage and what is read back out of it.
pub mod Store
