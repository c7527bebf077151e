-- ===== src/Position.antt =====
-- Positions: how trades change them, and what they are worth.
mod Defs
pub mod Pnl
pub mod Exposure
pub mod Margin
unfoldable pub use Defs.*
