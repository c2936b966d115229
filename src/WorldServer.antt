-- ===== src/WorldServer.antt =====
-- services/world: the world server.
pub mod Heartbeat
pub mod Readers
pub mod Decode
pub mod Framing
pub mod Names
pub mod Socket
pub mod ServerPackets
pub mod Session
pub mod World
pub mod Login
pub mod Clients
pub mod Update
pub mod Steps
pub mod Main
