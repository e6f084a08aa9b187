-- ===== src/Controller.antt =====
-- The controlling side of a session, below KdDeskTC_Client: what is stored of each peer, the login,
-- the key exchange, and the window of a session.
pub mod PeerConfig
pub mod LoginConfig
pub mod Login
pub mod Secure
pub mod Remote
pub mod Runs
