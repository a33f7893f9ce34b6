-- ===== src/Telegram.antt =====
-- The Telegram transport.
pub mod Gifts
pub mod Tracker
pub mod Debounce
pub mod SendResult
pub mod Flood
pub mod TaskResolver
