-- ===== src/Tests/Interface.antt =====
-- The interface over the concrete database.
use azerust.Prelude.{◌==◌, if◌then◌else◌, ◌≡◌, refl, [], some, none, true, inl, arith, bytes_eq}
use azerust.Prelude.Text.{codes}
use azerust.Prelude.Outcome.{ok, err}
use azerust.Game.Accounts.{suspended}
use azerust.MysqlAuth.Db.{Db, attempt, first_where}
use azerust.MysqlAuth.Accounts
use azerust.MysqlAuth.Accounts.{initiate_login, set_ban}
use azerust.Graphql.{UserCreate, register_user, set_ban_status, get_users, get_user}
use azerust.Graphql.Banned.{api_ban_blocks_login}
use azerust.Graphql.Secrets.{with_secrets, answers_hide_secrets}
use azerust.Tests.Instances.{crypto, schema}
use azerust.Tests.Srp.{alice, salt, b}
use azerust.Tests.Mysql.{db, alice_row}

abbrev user : UserCreate
user = record { username = codes "alice"; email = []; password = codes "secret" }

-- no account yet, and a draw for the salt before that for `b`
abbrev empty_db : Db
empty_db = record db { account = []; draws = λ i. if i == 0 then salt else b }

abbrev registered_db : Db
registered_db = (register_user (Accounts.service crypto schema) user empty_db).1

abbrev ban_db : Db
ban_db = (set_ban_status (Accounts.service crypto schema) 1 (some 3) none db).1

was_set : set_ban_status (Accounts.service crypto schema) 1 (some 3) none db ≡ (ok true, ban_db)
unfolding set_ban_status set_ban attempt
was_set = refl

api_ban_blocks_login_example :
    (initiate_login crypto schema alice (record ban_db { now = 9000 })).0 ≡ err suspended
unfolding first_where bytes_eq
api_ban_blocks_login_example =
    api_ban_blocks_login crypto schema alice alice_row (some 3) none 9000 db ban_db refl refl refl
      was_set (inl (omega arith))

answers_hide_secrets_example :
    ((get_users
        (Accounts.service crypto schema)
        (with_secrets (λ r. b) (λ r. salt) (λ r. none) db)).0
      ≡ (get_users (Accounts.service crypto schema) db).0)
    × ((get_user
          (Accounts.service crypto schema)
          alice
          (with_secrets (λ r. b) (λ r. salt) (λ r. none) db)).0
        ≡ (get_user (Accounts.service crypto schema) alice db).0)
answers_hide_secrets_example =
    answers_hide_secrets (λ r. b) (λ r. salt) (λ r. none) crypto schema alice db
