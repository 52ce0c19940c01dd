-- ===== src/Net/Bounded.antt =====
-- How often a command is sent between the servers of core/src/server.rs.
pub mod Weights
pub mod Handles
pub mod Moves
pub mod Limit
