-- ===== src/Realtime.antt =====
-- The realtime tier (crates/atomo_realtime/src): channel membership, coordinator sessions, the
-- join limiter, the wire vocabulary, and the hub that owns them.
pub mod Protocol
pub mod Presence
pub mod Sessions
pub mod Runtime
pub mod RateLimit
pub mod Hub
