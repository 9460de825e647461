-- ===== src/Realtime/Hub.antt =====
-- The hub (crates/atomo_realtime/src/hub.rs): the state that its one task owns, what delivers
-- frames, and a handler for each command.
pub mod State
pub mod Delivery
pub mod Commands
pub mod Invariant
pub mod Farewells
pub mod Leaving
pub mod Reaping
pub mod Safety
pub mod History
pub mod Fanout
