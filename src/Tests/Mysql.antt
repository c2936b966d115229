-- ===== src/Tests/Mysql.antt =====
-- The services over a concrete database.
use azerust.Prelude.{
  ℕ, ◌≡◌, ◌⊎◌, refl, List, [], ◌∷◌, ◌++◌, some, none, true, false, replicate, arith, bytes_eq,
  length, ◌≤◌, ◌%◌, ◌^◌,
}
use azerust.Prelude.Text.{codes}
use azerust.Prelude.Outcome.{ok}
use azerust.Srp.{
  new_with_b, calculate_b_pub, verify_challenge_response, expected_proof, premaster_secret,
  derive_session_key, get_server_proof, from_credentials, register, credentials_hash,
}
use azerust.Game.Accounts.{ConnectToken, connect_token, connect_accept}
use azerust.MysqlAuth.Db.{
  AccountRow, BanRow, Db, attempt, first_where, update_where, unix_timestamp, is_banned, draw,
}
use azerust.MysqlAuth.Accounts.{
  initiate_login, initiate_relogin, complete_login, create_account, get_by_username,
}
use azerust.MysqlAuth.Statements.{ascii_uppercase, account_of}
use azerust.MysqlAuth.Accounts.Registration.{create_account_sound}
use azerust.MysqlAuth.Accounts.Login.{
  row_of, ban_row_of, initiate_login_sound, handed_out, relogin_ignores_ban,
}
use azerust.MysqlAuth.Realms.{Service, realms, select_realms, new_service}
use azerust.MysqlAuth.Realms.Cache.{cached_within_interval}
use azerust.Tests.Instances.{crypto, schema, blank_account, blank_realm}
use azerust.Tests.Srp.{alice, salt, verifier, server, a_pub, b, b_pub, key}

abbrev pub session : List ℕ
session = replicate 40 9

abbrev pub alice_row : AccountRow
alice_row = record blank_account {
  id = 1;
  username = alice;
  salt = salt;
  verifier = verifier;
  session_key_auth = some session;
}

abbrev permanent_ban : BanRow
permanent_ban = record {
  id = 1;
  bandate = 5;
  unbandate = 5;
  bannedby = alice;
  banreason = [];
  active = true;
}

abbrev pub db : Db
db = record {
  account = alice_row ∷ [];
  account_banned = [];
  realmcharacters = [];
  realmlist =
      record blank_realm { id = 2 }
      ∷ record blank_realm { id = 1 }
      ∷ record blank_realm { id = 3; flags = 3 }
      ∷ [];
  uptimes = [];
  next_account = 2;
  faults = [];
  draws = λ i. b;
  drawn = 0;
  now = 7000;
}

abbrev banned_db : Db
banned_db = record db { account_banned = permanent_ban ∷ [] }

abbrev pub token : ConnectToken
token = record { server = server; security_flags = 0 }

issued : (initiate_login crypto schema alice db).0 ≡ ok token
unfolding initiate_login get_by_username attempt connect_token new_with_b calculate_b_pub draw
    first_where bytes_eq account_of
issued = refl

initiate_login_sound_example :
    (row : AccountRow) × (row_of crypto schema alice db ≡ some row)
    × ((ban_row_of crypto schema row.id db ≡ none)
        ⊎ ((ban : BanRow) × (ban_row_of crypto schema row.id db ≡ some ban)
            × (is_banned (unix_timestamp db) ban ≡ false)))
    × (connect_token crypto row.username row.salt row.verifier b ≡ ok token)
initiate_login_sound_example = initiate_login_sound crypto schema alice db token refl issued

relogin_ignores_ban_example :
    handed_out (initiate_relogin crypto schema alice banned_db).0 ≡ ok (1, alice, session, b)
unfolding first_where bytes_eq
relogin_ignores_ban_example = relogin_ignores_ban crypto schema alice banned_db refl

abbrev pub proof : List ℕ
proof = expected_proof crypto (crypto.sha1 alice) salt a_pub b_pub key

completed :
    complete_login crypto schema token a_pub proof db
    ≡ (ok (get_server_proof crypto server a_pub proof key), db)
unfolding complete_login connect_accept verify_challenge_response expected_proof premaster_secret
    derive_session_key attempt bytes_eq update_where
completed = refl

abbrev registered_db : Db
registered_db = (create_account crypto schema (codes "bob") (codes "pw") [] db).1

created : create_account crypto schema (codes "bob") (codes "pw") [] db ≡ (ok 2, registered_db)
unfolding create_account ascii_uppercase register from_credentials credentials_hash attempt draw
created = refl

create_account_sound_example :
    (row : AccountRow) × (registered_db.account ≡ db.account ++ row ∷ [])
    × (row.username ≡ ascii_uppercase (codes "bob"))
    × (row.email ≡ [])
    × (from_credentials crypto row.username (ascii_uppercase (codes "pw")) row.salt
        ≡ ok row.verifier)
    × (2 ≡ row.id % 2 ^ 32)
    × (length (codes "bob") ≤ 16)
    × (length (codes "pw") ≤ 16)
create_account_sound_example =
    create_account_sound crypto schema (codes "bob") (codes "pw") [] 2 db registered_db created

abbrev listing : Service
listing = new_service (record db { now = 6000 }) 500

abbrev pub opened_list : Service
opened_list = record listing { db = db }

cached_within_interval_example :
    realms (record (realms opened_list).1 { db = banned_db })
    ≡ (select_realms db, record (realms opened_list).1 { db = banned_db })
unfolding new_service
cached_within_interval_example =
    cached_within_interval opened_list banned_db refl (omega arith) (omega arith)
