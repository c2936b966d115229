-- ===== src/AuthServer/Handlers.antt =====
-- services/auth/src/authserver.rs: the states of a connection and the handlers of its messages.
use azerust.Prelude.{ℕ, false, not, List, [], ◌∷◌, ◌++◌, map, length, ltb, ◌==◌, if◌then◌else◌}
use azerust.Prelude.Utf8.{is_utf8}
use azerust.Prelude.Outcome.{ok}
use azerust.Prelude.Exec.{Exec, pure, stop, on_part, raise_as, match_result, ◌>>=◌, ◌>>◌}
use azerust.Bincode.{Bincode}
use azerust.Crypto.{Crypto}
use azerust.Game.Accounts.{AccountService, ConnectToken, ReconnectToken}
use azerust.Game.Realms
use azerust.Game.Realms.{RealmList}
use azerust.Protocol.Auth.{
  AuthCommand, ReturnCode, auth_command_code, return_code, login_failure_code,
}
use azerust.AuthServer.Stream.{Stream, IoError, read_exact, write_all}
use azerust.AuthServer.Packets.{
  ConnectRequest, ConnectProof, ReconnectProof, Realm, connect_challenge_from, put_challenge_reply,
  put_proof_response, put_realm, put_realm_list_response, response_from_realms, realm_from,
  put_array, version_challenge,
}
use azerust.AuthServer.Message.{PacketHandleError}

pub data RequestState : Type 0 where
  start : RequestState
  connect_challenge : ConnectToken → RequestState
  reconnect_challenge : ReconnectToken → RequestState
  realmlist : RequestState
  rejected : AuthCommand → ReturnCode → RequestState

pub data ServerError : Type 0 where
  packet : PacketHandleError → ServerError
  io : ServerError
  proof_before_request bad_state : ServerError

-- What a connection works on: its socket and the two services.
pub record Context (A R : Type 0) : Type 0 where
  pub stream : Stream
  pub accounts : A
  pub realms : R

module _ {A R : Type 0} where
  abbrev pub on_stream : {T : Type 0} → Exec Stream IoError T → Exec (Context A R) ServerError T
  on_stream m = raise_as (λ _. io) (on_part (λ x. x.stream) (λ x s. record x { stream = s }) m)

  abbrev pub on_accounts : {E T : Type 0} → Exec A E T → Exec (Context A R) E T
  on_accounts = on_part (λ x. x.accounts) (λ x a. record x { accounts = a })

  -- `&mut buffer[..identifier_length]` of a buffer of 16 bytes, then `read_exact`
  unfoldable pub read_username : ℕ → Exec (Context A R) ServerError (List ℕ)
  read_username len = if ltb 16 len then stop else on_stream (read_exact len)

listed : List Realms.Realm → List Realm
listed = map (λ r. realm_from r 0 false)

module _ (e : Bincode) where
  put_reconnect_challenge : ReconnectToken → List ℕ
  put_reconnect_challenge token =
      e.put_int 1 (auth_command_code AuthCommand.re_connect)
      ++ (e.put_int 1 (return_code ReturnCode.success)
          ++ (put_array e token.reconnect_proof ++ put_array e version_challenge))

  unfoldable pub put_realms : List Realm → List ℕ
  put_realms [] = []
  put_realms (r ∷ rest) = put_realm e r ++ put_realms rest

  unfoldable pub realm_list_packet : List Realm → List ℕ
  unfolding put_realms
  realm_list_packet rs =
      (e.put_int 1 (auth_command_code AuthCommand.realm_list)
        ++ put_realm_list_response e (response_from_realms e rs))
      ++ (put_realms rs ++ (0x10 ∷ 0x0 ∷ []))

module _ {A R : Type 0} (c : Crypto) (e : Bincode) (accounts : AccountService A) where
  -- `&mut buffer[..len]` of a buffer of 256 bytes
  write_challenge : List ℕ → Exec (Context A R) ServerError (Unit {0})
  write_challenge bytes = if ltb 256 (length bytes) then stop else on_stream (write_all bytes)

  challenge : ConnectToken → Exec (Context A R) ServerError RequestState
  challenge token = do
    write_challenge (put_challenge_reply e (connect_challenge_from c token))
    pure (connect_challenge token)

  pub login_user : List ℕ → Exec (Context A R) ServerError RequestState
  login_user username =
      if is_utf8 username
      then match_result (on_accounts (accounts.initiate_login username)) challenge
          (λ reason. pure (rejected AuthCommand.connect (login_failure_code reason)))
      else pure (rejected AuthCommand.connect ReturnCode.failed)

  unfoldable pub handle_connect_request :
      ConnectRequest → Exec (Context A R) ServerError RequestState
  unfolding login_user challenge write_challenge
  handle_connect_request request =
      if not (request.build == 12340)
      then pure (rejected AuthCommand.connect ReturnCode.version_invalid)
      else (do username ← read_username request.identifier_length; login_user username)

  proof_accepted : List ℕ → Exec (Context A R) ServerError RequestState
  proof_accepted server_proof = do
    on_stream (
        write_all (
          put_proof_response e (record {
            error = 0;
            server_proof = server_proof;
            account_flags = 0x00800000;
            survey_id = 0;
            login_flags = 0;
          })))
    pure realmlist

  unfoldable pub handle_connect_proof :
      ConnectProof → ConnectToken → Exec (Context A R) ServerError RequestState
  unfolding proof_accepted
  handle_connect_proof p token =
      match_result (on_accounts (accounts.complete_login token p.user_public_key p.user_proof))
        proof_accepted (λ status. pure (rejected AuthCommand.proof (login_failure_code status)))

  rechallenge : ReconnectToken → Exec (Context A R) ServerError RequestState
  rechallenge token = do
    on_stream (write_all (put_reconnect_challenge e token))
    pure (reconnect_challenge token)

  pub relogin_user : List ℕ → Exec (Context A R) ServerError RequestState
  relogin_user username =
      if is_utf8 username
      then match_result (on_accounts (accounts.initiate_relogin username)) rechallenge
          (λ reason. pure (rejected AuthCommand.re_connect (login_failure_code reason)))
      else pure (rejected AuthCommand.re_connect ReturnCode.failed)

  unfoldable pub handle_reconnect_request :
      ConnectRequest → Exec (Context A R) ServerError RequestState
  unfolding relogin_user rechallenge put_reconnect_challenge
  handle_reconnect_request request =
      if not (request.build == 12340)
      then pure (rejected AuthCommand.re_connect ReturnCode.version_invalid)
      else (do username ← read_username request.identifier_length; relogin_user username)

  reproof_accepted : List ℕ → Exec (Context A R) ServerError RequestState
  reproof_accepted client_proof = do
    on_stream (
        write_all (
          e.put_int 1 (auth_command_code AuthCommand.re_proof)
          ++ (e.put_int 1 (return_code ReturnCode.success) ++ e.put_int 2 0)))
    pure realmlist

  -- a refused proof is answered under the number of the request, as in the source
  unfoldable pub handle_reconnect_proof :
      ReconnectProof → ReconnectToken → Exec (Context A R) ServerError RequestState
  unfolding reproof_accepted
  handle_reconnect_proof p token =
      match_result (on_accounts (accounts.complete_relogin token p.proof_data p.client_proof))
        reproof_accepted
        (λ status. pure (rejected AuthCommand.re_connect (login_failure_code status)))

module _ {A R : Type 0} (e : Bincode) (realms : RealmList R) where
  unfoldable pub fetch : Exec (Context A R) ServerError (List Realms.Realm)
  fetch x = let (rs, r) = realms.realms x.realms in (ok rs, record x { realms = r })

  unfoldable pub handle_realmlist : Exec (Context A R) ServerError RequestState
  unfolding listed fetch
  handle_realmlist = do
    rs ← fetch
    on_stream (write_all (realm_list_packet e (listed rs)))
    pure realmlist
