-- ===== src/Examples.antt =====
-- Concrete inputs at which the theorems apply.
pub mod Hub
pub mod Reads
pub mod Flows
pub mod Limits
pub mod Fleet
pub mod Rooms
pub mod Queue
pub mod Streams
pub mod Views
pub mod Workers
