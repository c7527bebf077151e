-- ===== src/Storage.antt =====
-- The reads and writes of `RocksDbStorage` in crates/state/src/rocksdb_storage.rs, for the keys of
-- one kind (one variant of `StateKey`) and values of one type. Values are kept as they are: their
-- encoding by serde is not modelled, nor is any failure of RocksDB. The hash of a key stands for
-- the key, so no two keys collide.
pub mod Reads
pub mod Snapshots
pub mod Latest
pub mod Restart
pub mod Restore
pub mod Pruning
unfoldable pub use Defs.*
mod Defs
