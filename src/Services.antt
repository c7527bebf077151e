-- ===== src/Services.antt =====
-- The services of crates/engine/src/services.
pub mod Parts
pub mod Account
pub mod Balances
pub mod Orders
pub mod Fills
pub mod Laws
