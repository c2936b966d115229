-- ===== src/Graphql/Registered.antt =====
-- From a registration over the interface to a login at the auth server.
use azerust.Prelude.Outcome
use azerust.Prelude.Outcome.{Outcome, err, panic}
use azerust.Crypto.{Crypto}
use azerust.MysqlAuth.Db.{Db}
