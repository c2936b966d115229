-- ===== src/Game.antt =====
-- crates/game: the types that the services and the servers share.
pub mod Accounts
pub mod Characters
pub mod Realms
pub mod Ids
