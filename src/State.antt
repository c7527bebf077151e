-- ===== src/State.antt =====
-- The state manager, and the laws of its reads and writes; the index managers beside it.
mod Defs
pub mod Laws
pub mod Indexes
pub mod Recovery
unfoldable pub use Defs.*
