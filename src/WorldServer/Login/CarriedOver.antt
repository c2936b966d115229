-- ===== src/WorldServer/Login/CarriedOver.antt =====
-- The one account whose login at the auth server the world server knows of.
use azerust.Crypto.{Crypto}
use azerust.Bincode.{Bincode}
use azerust.MysqlAuth.Db.{Db}
use azerust.WorldServer.Session.{Session}
