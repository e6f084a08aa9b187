-- ===== src/Relay.antt =====
-- The relay server: KdDeskTC_Server/src/relay_server.rs.
pub mod State
pub mod Session
pub mod Commands
pub mod Pairs
mod Runs
