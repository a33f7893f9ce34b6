-- ===== src/Utils.antt =====
-- Utilities.
pub mod Retry
