-- ===== src/Liquidation.antt =====
-- Liquidations.
pub mod Defs
pub mod Engine
pub mod Sizes
pub mod Fund
pub mod RiskIndex
pub mod AtRisk
pub mod Deleveraging
pub mod Candidates
pub mod Collected
pub mod Batch
unfoldable pub use Defs.*
