-- ===== src/Events.antt =====
-- The event log: crates/types/src/engine.rs and crates/engine/src/event_store.rs.
pub mod Defs
pub mod Positions
pub mod Queries
pub mod Classes
pub mod Rocks
