-- ===== src/Server.antt =====
-- What stands before the handlers of the HTTP server (crates/atomo_server/src/rate_limit.rs).
pub mod RateLimit
