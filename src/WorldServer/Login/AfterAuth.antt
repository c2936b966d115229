-- ===== src/WorldServer/Login/AfterAuth.antt =====
-- From the login at the auth server to the login at the world server, over the tables that both use.
use azerust.Crypto.{Crypto}
use azerust.Bincode.{Bincode}
use azerust.MysqlAuth.Db.{Db}
