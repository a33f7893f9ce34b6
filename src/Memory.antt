-- ===== src/Memory.antt =====
-- The agent's memory.
pub mod PendingHistory
pub mod Tasks
