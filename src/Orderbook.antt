-- ===== src/Orderbook.antt =====
-- The order book: its levels, its queries, and matching.
pub mod Book
pub mod Manager
pub mod Matching
pub mod Loops
pub mod Fills
pub mod Conservation
pub mod PostOnly
pub mod Resting
pub mod Standing
pub mod Removal
pub mod RoundTrip
pub mod Priority
