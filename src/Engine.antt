-- ===== src/Engine.antt =====
-- The facade of the engine: crates/engine/src/lib.rs.
pub mod Defs
pub mod Recording
pub mod Rebuild
pub mod Restored
