-- ===== src/Auth.antt =====
-- Agents and what they may do: crates/auth/src and crates/types/src/common.rs.
pub mod Permissions
pub mod Agents
pub mod Nominations
