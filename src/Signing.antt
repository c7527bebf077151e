-- ===== src/Signing.antt =====
-- What a transaction signs, and its bytes: crates/tx/src/lib.rs.
mod Defs
pub mod Bytes
pub mod Payloads
pub mod Values
pub mod Binding
pub mod Roundtrip
unfoldable pub use Defs.*
