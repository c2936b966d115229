-- ===== src/Tests.antt =====
-- Runs of the model and the theorems on concrete values.
pub mod Instances
pub mod Srp
pub mod Mysql
pub mod Auth
pub mod Heartbeats
pub mod Characters
pub mod Headers
pub mod World
pub mod Visit
pub mod Invariants
pub mod Lost
pub mod Carried
pub mod Interface
pub mod Programs
pub mod Server
pub mod Formats
pub mod Standard
pub mod Vectors
