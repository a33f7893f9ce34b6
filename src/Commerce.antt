-- ===== src/Commerce.antt =====
-- The commerce domain.
pub mod Amount
pub mod Events
pub mod Ledger
