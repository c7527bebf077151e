-- ===== src/Mempool.antt =====
-- The mempool of crates/mempool.
pub mod Defs
pub mod Laws
pub mod Queries
pub mod Consistency
pub mod Pruning
