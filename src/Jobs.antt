-- ===== src/Jobs.antt =====
-- The durable job queue (crates/atomo_server/src/jobs.rs).
pub mod Retry
pub mod Store
pub mod Methods
pub mod Views
pub mod Calls
pub mod Rows
pub mod Tokens
pub mod Lifecycle
pub mod Holding
pub mod Failing
pub mod Dispatch
pub mod Keys
pub mod Workers
