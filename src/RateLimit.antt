-- ===== src/RateLimit.antt =====
-- internal/features/auth/ratelimit: the limits on attempts to sign in, and their store in memory.
pub mod Memory
pub mod Limiter
pub mod Windows
mod Samples
