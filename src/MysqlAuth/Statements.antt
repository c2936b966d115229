-- ===== src/MysqlAuth/Statements.antt =====
-- crates/mysql-auth/src/accounts.rs: the SQL statements of `MySQLAccountService`, each a function of the
-- tables, and what is made of a row.
use azerust.Prelude.{
  ℕ, suc, ◌-◌, ◌/◌, not, Option, some, none, Bool, true, false, ◌&&◌, ◌||◌, List, [], ◌∷◌, ◌++◌,
  map, length, leb, ◌==◌, if◌then◌else◌,
}
use azerust.Prelude.Outcome.{ok}
use azerust.Prelude.Exec.{Exec, modify}
use azerust.Game.Realms.{Realm}
use mathlib.Core.List.{flat_map}
use azerust.Prelude.Text.{codes}
use azerust.Game.Accounts.{Account, BanStatus, temporary, permanent, LoginFailure, AccountOpError}
use azerust.MysqlAuth.Db.{
  AccountRow, BanRow, Db, Schema, unix_timestamp, is_permabanned, is_banned, first_where, all_where,
  update_where,
}

-- `to_ascii_uppercase`
unfoldable pub ascii_uppercase : List ℕ → List ℕ
ascii_uppercase = map (λ c. if leb b'a' c && leb c b'z' then c - 32 else c)

-- the columns of the SELECTs, `ban_status` being NULL
unfoldable pub account_of : AccountRow → Account
account_of r = record {
  id = r.id;
  username = r.username;
  email = r.email;
  ban_status = none;
  salt = r.salt;
  verifier = r.verifier;
  session_key = r.session_key_auth;
  joindate = r.joindate;
  last_login = r.last_login;
  online = r.online;
}

-- `match (is_banned, is_permabanned)`
unfoldable pub ban_status_of : Bool → Bool → Option BanStatus
ban_status_of is_banned true = some permanent
ban_status_of true false = some temporary
ban_status_of false false = none

-- `session_key_auth IS NOT NULL`
abbrev pub has_key : AccountRow → Bool
has_key r = elim r.session_key_auth [ none ↦ false | some _ ↦ true ]

has_characters : ℕ → List (ℕ × ℕ × ℕ) → Bool
has_characters acctid [] = false
has_characters acctid (r ∷ rest) = r.1 == acctid || has_characters acctid rest

-- INSERT INTO realmcharacters SELECT realmlist.id, account.id, 0 …, for the accounts without a row
unfoldable pub insert_realmcharacters : Exec Db AccountOpError (Unit {0})
unfolding has_characters
insert_realmcharacters = modify λ s. record s {
  realmcharacters =
      s.realmcharacters
      ++ flat_map
          (λ (realm : Realm).
            map (λ (a : AccountRow). (realm.id, a.id, 0))
              (all_where (λ (a : AccountRow). not (has_characters a.id s.realmcharacters))
                s.account))
          s.realmlist;
}

unfoldable pub with_ban : Account → Option BanRow → ℕ → Account
with_ban account none t = account
with_ban account (some ban) t = record account {
  ban_status = ban_status_of (is_banned t ban) (is_permabanned ban);
}

-- the row of `account_banned` that the LEFT JOIN finds
unfoldable pub active_ban : ℕ → Db → Option BanRow
active_ban id s = first_where (λ (b : BanRow). b.id == id && b.active) s.account_banned

-- `match (is_banned, is_permabanned)`, NULL where there is no such row
unfoldable pub joined_ban_status : Option BanRow → ℕ → Option BanStatus
joined_ban_status none t = none
joined_ban_status (some b) t = ban_status_of (is_banned t b) (is_permabanned b)

-- `and_then(|k| k.as_slice().try_into().ok())`
unfoldable pub key_of : AccountRow → Option (List ℕ)
key_of r = elim r.session_key_auth [
  | none ↦ none
  | some k ↦ if length k == 40 then some k else none
]

module _ (schema : Schema) where
  unfoldable pub insert_account : List ℕ → List ℕ → List ℕ → List ℕ → Exec Db AccountOpError ℕ
  insert_account username salt verifier email s =
      let row = record schema.new_account {
        id = s.next_account;
        username = username;
        salt = salt;
        verifier = verifier;
        reg_mail = email;
        email = email;
        joindate = unix_timestamp s;
      } in
      (
        ok s.next_account,
        record s { account = s.account ++ row ∷ []; next_account = suc s.next_account },
      )

  -- UPDATE account SET … WHERE username = ?
  unfoldable pub store_session : List ℕ → List ℕ → Exec Db LoginFailure (Unit {0})
  store_session session_key username = modify λ s. record s {
    account =
        update_where (λ (r : AccountRow). schema.same_text r.username username)
          (λ (r : AccountRow). record r {
            session_key_auth = some session_key;
            last_ip = codes "0.0.0.0";
            last_login = some (unix_timestamp s);
            locale = 0;
            failed_logins = 0;
            os = codes "Win";
          })
          s.account;
  }

  unfoldable pub insert_ban : ℕ → List ℕ → ℕ → ℕ → List ℕ → Exec Db AccountOpError (Unit {0})
  insert_ban id author bandate unbandate reason = modify λ s. record s {
    account_banned =
        s.account_banned
        ++ record {
          id = id;
          bandate = bandate / 1000;
          unbandate = unbandate / 1000;
          bannedby = author;
          banreason = reason;
          active = schema.active_by_default;
        }
          ∷ [];
  }
