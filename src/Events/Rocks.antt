-- ===== src/Events/Rocks.antt =====
-- The event store over RocksDB: `RocksDbEventStore` of crates/engine/src/event_store.rs, and its keys.
mod Defs
pub mod Order
pub mod Laws
pub mod Scans
pub mod Reads
pub mod Puts
pub mod Flush
pub mod Counts
pub mod Durability
unfoldable pub use Defs.*
