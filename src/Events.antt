-- ===== src/Events.antt =====
-- The events of the core (crates/atomo_core/src/events) and where they are stored
-- (crates/atomo_server/src/event_store).
pub mod Store
pub mod Reading
pub mod Snapshots
pub mod Numbering
