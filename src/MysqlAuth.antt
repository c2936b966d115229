-- ===== src/MysqlAuth.antt =====
-- crates/mysql-auth: the account service and the realm list over a MySQL database.
pub mod Db
pub mod Statements
pub mod Accounts
pub mod Realms
