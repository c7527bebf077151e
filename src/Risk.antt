-- ===== src/Risk.antt =====
-- Margin requirements.
mod Defs
pub mod Orders
unfoldable pub use Defs.*
