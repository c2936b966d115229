-- ===== src/Protocol.antt =====
-- crates/protocol: the codes and the packets of the two servers.
pub mod Auth
pub mod HeaderCrypto
pub mod World
pub mod Packets
