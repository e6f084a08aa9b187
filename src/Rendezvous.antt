-- ===== src/Rendezvous.antt =====
-- The rendezvous server: `RendezvousServer` of KdDeskTC_Server/src/rendezvous_server.rs, a module for
-- each group of its methods.
pub mod State
pub mod Samples
pub mod Relays
pub mod Register
pub mod Forward
pub mod Punch
pub mod Udp
pub mod Tcp
pub mod Commands
