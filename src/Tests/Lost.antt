-- ===== src/Tests/Lost.antt =====
-- A user who logs in at the auth server and then at the world server.
use azerust.Prelude.{none, [], ◌∷◌}
use azerust.MysqlAuth.Db.{AccountRow, Db}
use azerust.MysqlAuth.Accounts
use azerust.MysqlCharacters
use azerust.WorldServer.Login.{Server}
use azerust.Tests.Mysql.{alice_row, db}
use azerust.Tests.Headers.{ciphers}
use azerust.Tests.Characters.{tables}
use azerust.Tests.Visit.{waiting}

abbrev pub new_row : AccountRow
new_row = record alice_row { session_key_auth = none }

abbrev new_db : Db
new_db = record db { account = new_row ∷ [] }

abbrev world_server : Server ciphers Db MysqlCharacters.Db
world_server = record {
  accounts = new_db;
  clients = (7, waiting) ∷ [];
  world = record { sessions = []; receiver = []; characters = tables };
}
