-- ===== src/Bot.antt =====
-- The bot of the plugins.
pub mod RateLimiter
