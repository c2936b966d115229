-- ===== src/Tests/Carried.antt =====
-- The account that both servers know of, from one login to the other.
use azerust.Prelude.{none, some, List, ℕ, [], ◌∷◌}
use azerust.Prelude.Text.{codes}
use azerust.Srp.{get_server_proof, expected_proof}
use azerust.Game.Accounts.{ConnectToken}
use azerust.MysqlAuth.Db.{AccountRow, Db}
use azerust.MysqlAuth.Accounts
use azerust.MysqlAuth.Statements.{account_of}
use azerust.MysqlCharacters
use azerust.Protocol.Packets.{AuthSession}
use azerust.WorldServer.Session.{Session}
use azerust.WorldServer.Login.{Server, server_proof}
use azerust.Tests.Instances.{crypto}
use azerust.Tests.Srp.{salt, server, a_pub, b_pub, key}
use azerust.Tests.Mysql.{alice_row, db, token}
use azerust.Tests.Headers.{ciphers}
use azerust.Tests.Characters.{tables}
use azerust.Tests.Visit.{waiting, auth, seed}

abbrev arlyon : List ℕ
arlyon = codes "ARLYON"

abbrev row : AccountRow
row = record alice_row { username = arlyon; session_key_auth = none }

abbrev before : Db
before = record db { account = row ∷ [] }

abbrev issued : ConnectToken
issued = record token { server = record server { identity_hash = crypto.sha1 arlyon } }

abbrev proof : List ℕ
proof = expected_proof crypto (crypto.sha1 arlyon) salt a_pub b_pub key

abbrev answer : List ℕ
answer = get_server_proof crypto issued.server a_pub proof key

abbrev after : Db
after = record before {
  account =
      record row {
        session_key_auth = some key;
        last_ip = codes "0.0.0.0";
        last_login = some 7;
        locale = 0;
        failed_logins = 0;
        os = codes "Win";
      }
      ∷ [];
}

abbrev named : AuthSession
named = record auth { username = arlyon }

abbrev login : AuthSession
login = record named { client_proof = server_proof crypto seed (account_of row) named key }

abbrev world_server : Server ciphers Db MysqlCharacters.Db
world_server = record {
  accounts = after;
  clients = (7, waiting) ∷ [];
  world = record { sessions = []; receiver = []; characters = tables };
}
