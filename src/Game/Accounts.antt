-- ===== src/Game/Accounts.antt =====
-- crates/game/src/accounts.rs: accounts, the two tokens of a login in progress, and the account
-- service. A user name is its UTF-8 bytes, a time a number of seconds.
use azerust.Prelude.{ℕ, Option, none, some, List, ◌++◌, bytes_eq, if◌then◌else◌}
use azerust.Prelude.Outcome.{Outcome, Never, ok, err, ◌>>=◌, infallible}
use azerust.Prelude.Exec.{Exec}
use azerust.Crypto.{Crypto}
use azerust.Srp
use azerust.Srp.{WowSrpServer}

pub data BanStatus : Type 0 where
  temporary permanent : BanStatus

pub record Account : Type 0 where
  pub id : ℕ
  pub username : List ℕ
  pub email : List ℕ
  pub ban_status : Option BanStatus
  pub salt : List ℕ
  pub verifier : List ℕ
  pub session_key : Option (List ℕ)
  pub joindate : ℕ
  pub last_login : Option ℕ
  pub online : ℕ

pub data LoginFailure : Type 0 where
  suspended banned unknown_account incorrect_password database_error : LoginFailure

-- The texts of the errors are left out.
pub data AccountOpError : Type 0 where
  username_too_long password_too_long persist_error : AccountOpError
  invalid_account : ℕ → AccountOpError

pub data AccountFetchError : Type 0 where
  io : AccountFetchError

pub record ConnectToken : Type 0 where
  pub server : WowSrpServer
  pub security_flags : ℕ

pub record ReconnectToken : Type 0 where
  pub reconnect_proof : List ℕ
  pub account : Account
  pub session_key : List ℕ

module _ (c : Crypto) where
  open c use {sha1}

  -- `b` is what `WowSRPServer::new` draws
  unfoldable pub connect_token : List ℕ → List ℕ → List ℕ → List ℕ → Outcome Never ConnectToken
  connect_token username salt verifier b = do
    server ← Srp.new_with_b c username salt verifier b
    ok (record { server = server; security_flags = 0 })

  unfoldable pub proof_and_key :
      ConnectToken → List ℕ → List ℕ → Option (List ℕ) → Outcome LoginFailure (List ℕ × List ℕ)
  proof_and_key token public_key client_proof none = err incorrect_password
  proof_and_key token public_key client_proof (some key) =
      ok (Srp.get_server_proof c token.server public_key client_proof key, key)

  unfoldable pub connect_accept :
      ConnectToken → List ℕ → List ℕ → Outcome LoginFailure (List ℕ × List ℕ)
  unfolding proof_and_key
  connect_accept token public_key client_proof = do
    verified ← infallible (Srp.verify_challenge_response c token.server public_key client_proof)
    proof_and_key token public_key client_proof verified

  -- what the client has to send back for its random `proof_data`
  unfoldable pub reconnect_proof_for : ReconnectToken → List ℕ → List ℕ
  reconnect_proof_for token proof_data =
      sha1 (token.account.username ++ (proof_data ++ (token.reconnect_proof ++ token.session_key)))

  unfoldable pub reconnect_accept :
      ReconnectToken → List ℕ → List ℕ → Outcome LoginFailure (Unit {0})
  unfolding reconnect_proof_for
  reconnect_accept token proof_data client_proof =
      if bytes_eq (reconnect_proof_for token proof_data) client_proof
      then ok tt
      else err incorrect_password

-- The trait, over the state `S` of the service that implements it; its random draws and the clock
-- are parts of that state.
pub record AccountService (S : Type 0) : Type 0 where
  pub list_account : Exec S AccountFetchError (List Account)
  -- user name, password and email
  pub create_account : List ℕ → List ℕ → List ℕ → Exec S AccountOpError ℕ
  pub delete_account : ℕ → Exec S AccountOpError (Unit {0})
  pub get : ℕ → Exec S AccountOpError Account
  pub get_by_username : List ℕ → Exec S AccountOpError (Option Account)
  pub initiate_login : List ℕ → Exec S LoginFailure ConnectToken
  -- the token, the public key and the proof
  pub complete_login : ConnectToken → List ℕ → List ℕ → Exec S LoginFailure (List ℕ)
  pub initiate_relogin : List ℕ → Exec S LoginFailure ReconnectToken
  pub complete_relogin : ReconnectToken → List ℕ → List ℕ → Exec S LoginFailure (List ℕ)
  -- the account, the author, the milliseconds that the ban lasts, and the reason
  pub set_ban : ℕ → List ℕ → Option ℕ → Option (List ℕ) → Exec S AccountOpError (Unit {0})
