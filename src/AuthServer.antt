-- ===== src/AuthServer.antt =====
-- services/auth: the authentication server.
pub mod Stream
pub mod Packets
pub mod Readers
pub mod ClientPackets
pub mod Message
pub mod Heartbeats
pub mod Handlers
pub mod RealmListSize
pub mod Connection
pub mod Server
pub mod Main
