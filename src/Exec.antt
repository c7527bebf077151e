-- ===== src/Exec.antt =====
-- The execution of transactions: crates/exec/src/tx_executor.rs.
pub mod Defs
pub mod Trading
pub mod Keeps
pub mod Declared
pub mod Replay
pub mod ReadOnly
pub mod Sync
pub mod Server
pub mod Batches
pub mod Blocks
