-- ===== src/Funding.antt =====
-- `FundingRateCalculator` of crates/engine/src/funding.rs.
pub mod Defs
pub mod Rates
