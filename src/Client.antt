-- ===== src/Client.antt =====
-- The client, as the machine that is controlled: KdDeskTC_Client on Windows, which is the system
-- that it builds for. The children are named for its parts.
pub mod Proto
pub mod Service
pub mod Keys
pub mod Clipboard
pub mod Server
pub mod Files
pub mod Compress
pub mod Transfer
pub mod Connection
pub mod Runs
