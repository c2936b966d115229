-- ===== src/AuthServer/Connection/Handled.antt =====
-- What a handler that returned a state did with the account service.
use azerust.Prelude.{ℕ, ◌≡◌, ◌⊎◌, inl, inr, List, Bool-cases, arith, ◌==◌}
use azerust.Prelude.Outcome.{ok}
use azerust.Prelude.Exec.{bind_ok}
use azerust.Bincode.{Bincode}
use azerust.Crypto.{Crypto}
use azerust.Game.Accounts.{AccountService, ConnectToken, ReconnectToken}
use azerust.Game.Realms.{RealmList}
use azerust.Protocol.Auth.{AuthCommand, ReturnCode}
use azerust.AuthServer.Stream.{write_all, read_exact}
use azerust.AuthServer.Packets.{ConnectProof, ConnectRequest, ReconnectProof}
use azerust.AuthServer.Handlers.{
  RequestState, connect_challenge, reconnect_challenge, realmlist, rejected, Context,
  handle_connect_request, handle_connect_proof, handle_reconnect_request, handle_reconnect_proof,
  handle_realmlist, read_username, login_user, relogin_user,
}

accounts-read_username :
    {A R : Type 0} (n : ℕ) (x : Context A R) → (read_username n x).1.accounts ≡ x.accounts
unfolding read_username read_exact
accounts-read_username n x = ground arith

module _ {A R : Type 0} (c : Crypto) (e : Bincode) (accounts : AccountService A)
    (realms : RealmList R) where
  pub connect_proof_state :
      (p : ConnectProof) (token : ConnectToken) (x x' : Context A R) (st : RequestState)
      → handle_connect_proof c e accounts p token x ≡ (ok st, x')
      → ((st ≡ realmlist)
          × ((server_proof : List ℕ) × ((accounts.complete_login token p.user_public_key
                  p.user_proof x.accounts).0
                ≡ ok server_proof)))
        ⊎ ((reason : ReturnCode) × (st ≡ rejected AuthCommand.proof reason))
  unfolding handle_connect_proof write_all
  connect_proof_state p token x x' st h = ground arith

  login_user_state :
      (username : List ℕ) (x x' : Context A R) (st : RequestState)
      → login_user c e accounts username x ≡ (ok st, x')
      → ((token : ConnectToken) × (st ≡ connect_challenge token)
          × ((accounts.initiate_login username x.accounts).0 ≡ ok token))
        ⊎ ((reason : ReturnCode) × (st ≡ rejected AuthCommand.connect reason))
  unfolding handle_connect_request write_all
  login_user_state username x x' st h = ground arith

  pub connect_request_state :
      (r : ConnectRequest) (x x' : Context A R) (st : RequestState)
      → handle_connect_request c e accounts r x ≡ (ok st, x')
      → ((token : ConnectToken) × (username : List ℕ) × (st ≡ connect_challenge token)
          × ((accounts.initiate_login username x.accounts).0 ≡ ok token))
        ⊎ ((reason : ReturnCode) × (st ≡ rejected AuthCommand.connect reason))
  unfolding handle_connect_request
  connect_request_state r x x' st h = elim (Bool-cases (r.build == 12340)) [
    | inl same ↦
        let (username, read, rest) =
          bind_ok (read_username r.identifier_length) (login_user c e accounts) x st x'
            (rw same at h) in
        elim (login_user_state username (read_username r.identifier_length x).1 x' st rest) [
          | inl (token, shown, issued) ↦
              inl (token, username, shown, rw accounts-read_username at issued)
          | inr refused ↦ inr refused
        ]
    | inr other ↦ inr (ReturnCode.version_invalid, cc (rw other at h))
  ]

  relogin_user_state :
      (username : List ℕ) (x x' : Context A R) (st : RequestState)
      → relogin_user c e accounts username x ≡ (ok st, x')
      → ((token : ReconnectToken) × (st ≡ reconnect_challenge token)
          × ((accounts.initiate_relogin username x.accounts).0 ≡ ok token))
        ⊎ ((reason : ReturnCode) × (st ≡ rejected AuthCommand.re_connect reason))
  unfolding handle_reconnect_request write_all
  relogin_user_state username x x' st h = ground arith

  pub reconnect_request_state :
      (r : ConnectRequest) (x x' : Context A R) (st : RequestState)
      → handle_reconnect_request c e accounts r x ≡ (ok st, x')
      → ((token : ReconnectToken) × (username : List ℕ) × (st ≡ reconnect_challenge token)
          × ((accounts.initiate_relogin username x.accounts).0 ≡ ok token))
        ⊎ ((reason : ReturnCode) × (st ≡ rejected AuthCommand.re_connect reason))
  unfolding handle_reconnect_request
  reconnect_request_state r x x' st h = elim (Bool-cases (r.build == 12340)) [
    | inl same ↦
        let (username, read, rest) =
          bind_ok (read_username r.identifier_length) (relogin_user c e accounts) x st x'
            (rw same at h) in
        elim (relogin_user_state username (read_username r.identifier_length x).1 x' st rest) [
          | inl (token, shown, issued) ↦
              inl (token, username, shown, rw accounts-read_username at issued)
          | inr refused ↦ inr refused
        ]
    | inr other ↦ inr (ReturnCode.version_invalid, cc (rw other at h))
  ]

  pub reconnect_proof_state :
      (p : ReconnectProof) (token : ReconnectToken) (x x' : Context A R) (st : RequestState)
      → handle_reconnect_proof c e accounts p token x ≡ (ok st, x')
      → ((st ≡ realmlist)
          × ((server_proof : List ℕ) × ((accounts.complete_relogin token p.proof_data p.client_proof
                  x.accounts).0
                ≡ ok server_proof)))
        ⊎ ((reason : ReturnCode) × (st ≡ rejected AuthCommand.re_connect reason))
  unfolding handle_reconnect_proof write_all
  reconnect_proof_state p token x x' st h = ground arith

  pub realmlist_state :
      (x x' : Context A R) (st : RequestState)
      → handle_realmlist e realms x ≡ (ok st, x')
      → st ≡ realmlist
  unfolding handle_realmlist write_all
  realmlist_state x x' st h = ground arith
