-- ===== src/Rpc.antt =====
-- The RPC server: crates/rpc/src. The circuit breaker of its middleware, and its handlers.
pub mod Circuit
pub mod Recovery
pub mod Types
pub mod Handlers
pub mod Submission
