-- ===== src/Types.antt =====
-- The shared types of crates/types and crates/tx.
pub mod Order
pub mod Position
pub mod Market
pub mod Event
pub mod Tx
pub mod Prices
pub mod Signature
pub mod Transaction
pub mod Access
