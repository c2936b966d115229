-- ===== src/MysqlAuth/Accounts.antt =====
-- crates/mysql-auth/src/accounts.rs: each method of `MySQLAccountService`, on its SQL statements.
pub mod Login
pub mod Registration
pub mod Bans
pub mod Completion
use azerust.Prelude.{
  ℕ, zero, suc, ◌+◌, ◌-◌, ◌/◌, ◌%◌, ◌^◌, not, Option, some, none, Bool, true, false, ◌&&◌, ◌||◌,
  List, [], ◌∷◌, ◌++◌, map, length, leb, ltb, ◌==◌, if◌then◌else◌, replicate,
}
use azerust.Prelude.Outcome.{Outcome, Never, ok, err, panic, ok_or, infallible}
use azerust.Prelude.Exec.{
  Exec, pure, raise, lift, stop, gets, modify, raise_as, match_result, ◌>>=◌, ◌>>◌,
}
use azerust.Game.Realms.{Realm}
use mathlib.Core.List.{flat_map}
use mathlib.Core.Option
use mathlib.Core.Option.{get_or}
use azerust.Prelude.Text.{codes}
use azerust.Crypto.{Crypto}
use azerust.Srp
use azerust.Game.Accounts.{
  Account, BanStatus, temporary, permanent, LoginFailure, suspended, banned, unknown_account,
  incorrect_password, database_error, AccountOpError, username_too_long, password_too_long,
  persist_error, invalid_account, AccountFetchError, io, ConnectToken, ReconnectToken,
  connect_token, connect_accept, reconnect_accept, AccountService,
}
use azerust.MysqlAuth.Db.{
  AccountRow, BanRow, Db, Schema, attempt, draw, unix_timestamp, is_permabanned, is_banned,
  first_where, all_where, update_where,
}
use azerust.MysqlAuth.Statements.{
  ascii_uppercase, account_of, has_key, insert_realmcharacters, insert_account, with_ban,
  active_ban, joined_ban_status, key_of, store_session, insert_ban,
}

unfoldable pub list_account : Exec Db AccountFetchError (List Account)
list_account = attempt io (gets (λ s. map account_of s.account))

module _ (c : Crypto) (schema : Schema) where
  store_account : List ℕ → List ℕ → List ℕ × List ℕ → Exec Db AccountOpError ℕ
  unfolding insert_account insert_realmcharacters
  store_account username email (verifier, salt) = do
    id ← attempt persist_error (insert_account schema username salt verifier email)
    attempt persist_error insert_realmcharacters
    pure (id % 2 ^ 32)

  enrol : List ℕ → List ℕ → List ℕ → Exec Db AccountOpError ℕ
  enrol username password email = do
    salt ← draw
    registered ← lift (infallible (Srp.register c username password salt))
    store_account username email registered

  unfoldable pub create_account : List ℕ → List ℕ → List ℕ → Exec Db AccountOpError ℕ
  unfolding enrol store_account
  create_account username password email =
      if ltb 16 (length username)
      then raise username_too_long
      else if ltb 16 (length password)
      then raise password_too_long
      else enrol (ascii_uppercase username) (ascii_uppercase password) email

  unfoldable pub get : ℕ → Exec Db AccountOpError Account
  get id = attempt persist_error (do
    found ← gets (λ s. first_where (λ (r : AccountRow). r.id == id) s.account)
    lift (ok_or (Option.map account_of found) persist_error))

  -- the account is looked up, and nothing is deleted
  unfoldable pub delete_account : ℕ → Exec Db AccountOpError (Unit {0})
  delete_account id = do
    found ←
        attempt persist_error (gets (λ s. first_where (λ (r : AccountRow). r.id == id) s.account))
    elim found [ none ↦ raise (invalid_account id) | some _ ↦ pure tt ]

  ban_of : Account → Exec Db AccountOpError (Option Account)
  unfolding with_ban
  ban_of account = do
    ban ←
        attempt persist_error
          (gets (λ s. first_where (λ (b : BanRow). b.id == account.id) s.account_banned))
    t ← gets unix_timestamp
    pure (some (with_ban account ban t))

  unfoldable pub get_by_username : List ℕ → Exec Db AccountOpError (Option Account)
  unfolding ban_of
  get_by_username username = do
    found ← attempt persist_error (
        gets
          (λ s. first_where (λ (r : AccountRow). schema.same_text r.username username) s.account))
    elim found [ none ↦ pure none | some row ↦ ban_of (account_of row) ]

  login_token : Account → Option BanStatus → Exec Db LoginFailure ConnectToken
  login_token account (some permanent) = raise banned
  login_token account (some temporary) = raise suspended
  login_token account none = do
    b ← draw
    lift (infallible (connect_token c account.username account.salt account.verifier b))

  unfoldable pub initiate_login : List ℕ → Exec Db LoginFailure ConnectToken
  unfolding login_token
  initiate_login username = do
    found ← raise_as (λ _. database_error) (get_by_username username)
    elim found [
      | none ↦ raise unknown_account
      | some account ↦ login_token account account.ban_status
    ]

  relogin_token : AccountRow → Exec Db LoginFailure ReconnectToken
  unfolding active_ban joined_ban_status key_of
  relogin_token row = do
    t ← gets unix_timestamp
    ban ← gets (active_ban row.id)
    key ← lift (ok_or (key_of row) database_error)
    proof ← draw
    pure (record {
      reconnect_proof = proof;
      account = record {
        id = row.id;
        username = row.username;
        email = [];
        ban_status = joined_ban_status ban t;
        salt = replicate 32 0;
        verifier = replicate 32 0;
        session_key = none;
        joindate = t;
        last_login = none;
        online = 0;
      };
      session_key = key;
    })

  -- `fetch_one` of no row is an error as any other
  unfoldable pub initiate_relogin : List ℕ → Exec Db LoginFailure ReconnectToken
  unfolding relogin_token
  initiate_relogin username = do
    found ← attempt database_error (
        gets (λ s.
          first_where (λ (r : AccountRow). schema.same_text r.username username && has_key r)
            s.account))
    row ← lift (ok_or found database_error)
    relogin_token row

  logged_in : List ℕ × List ℕ → Exec Db LoginFailure (List ℕ)
  unfolding store_session
  logged_in (server_proof, session_key) = do
    attempt database_error (store_session schema session_key (codes "ARLYON"))
    pure server_proof

  unfoldable pub complete_login : ConnectToken → List ℕ → List ℕ → Exec Db LoginFailure (List ℕ)
  unfolding logged_in
  complete_login token public_key client_proof = do
    accepted ← lift (connect_accept c token public_key client_proof)
    logged_in accepted

  unfoldable pub complete_relogin : ReconnectToken → List ℕ → List ℕ → Exec Db LoginFailure (List ℕ)
  complete_relogin token proof_data client_proof = do
    lift (reconnect_accept c token proof_data client_proof)
    pure client_proof

  -- `bandate + chrono::Duration::from_std(d).unwrap()`
  ban_end : ℕ → Option ℕ → Exec Db AccountOpError ℕ
  ban_end bandate none = pure bandate
  ban_end bandate (some d) = elim (schema.add_time bandate d) [ none ↦ stop | some u ↦ pure u ]

  unfoldable pub set_ban :
      ℕ → List ℕ → Option ℕ → Option (List ℕ) → Exec Db AccountOpError (Unit {0})
  unfolding insert_ban ban_end
  set_ban id author duration reason = do
    bandate ← gets (λ s. s.now)
    unbandate ← ban_end bandate duration
    attempt persist_error (insert_ban schema id author bandate unbandate (get_or reason []))

  -- `MySQLAccountService` implements the trait.
  abbrev pub service : AccountService Db
  service = record {
    list_account = list_account;
    create_account = create_account;
    delete_account = delete_account;
    get = get;
    get_by_username = get_by_username;
    initiate_login = initiate_login;
    complete_login = complete_login;
    initiate_relogin = initiate_relogin;
    complete_relogin = complete_relogin;
    set_ban = set_ban;
  }
