-- ===== src/AuthServer/Connection/Access.antt =====
-- Who is shown the realm list: the states that a connection can reach, and why.
use azerust.Prelude.{ℕ, ◌≡◌, ◌⊎◌, inl, inr, List, arith}
use azerust.Prelude.Outcome.{ok}
use azerust.Prelude.Exec.{bind_ok}
use azerust.Bincode.{Bincode}
use azerust.Crypto.{Crypto}
use azerust.Game.Accounts.{AccountService, ConnectToken, ReconnectToken}
use azerust.Game.Realms.{RealmList}
use azerust.AuthServer.Packets.{ConnectProof, ConnectRequest, ReconnectProof, RealmListRequest}
use azerust.AuthServer.Message.{
  Message, connect_message, proof_message, re_connect_message, re_proof_message, realm_list_message,
}
use azerust.AuthServer.Handlers.{
  RequestState, start, connect_challenge, reconnect_challenge, realmlist, rejected, Context,
  handle_connect_request, handle_connect_proof, handle_reconnect_request, handle_reconnect_proof,
}
use azerust.AuthServer.Connection.{dispatch, round, next_message}
use azerust.AuthServer.Connection.Handled.{
  connect_proof_state, connect_request_state, reconnect_request_state, reconnect_proof_state,
  realmlist_state,
}
use mathlib.Core.Path.{subst, sym}

module _ {A R : Type 0} (c : Crypto) (e : Bincode) (accounts : AccountService A)
    (realms : RealmList R) where
  -- The states of a connection that began in the context `x₀`.
  pub data Run (x₀ : Context A R) : RequestState → Context A R → Type 0 where
    opened : Run x₀ start x₀
    went_on :
        {st st' : RequestState} {x x' : Context A R}
        → Run x₀ st x
        → round c e accounts realms st x ≡ (ok st', x')
        → Run x₀ st' x'

  -- A token that the account service handed out on this connection for some user name.
  abbrev pub IsIssued : Context A R → ConnectToken → Type 0
  IsIssued x₀ token =
      (st : RequestState) × (x : Context A R) × Run x₀ st x
      × (username : List ℕ) × ((accounts.initiate_login username x.accounts).0 ≡ ok token)

  abbrev pub IsReissued : Context A R → ReconnectToken → Type 0
  IsReissued x₀ token =
      (st : RequestState) × (x : Context A R) × Run x₀ st x
      × (username : List ℕ) × ((accounts.initiate_relogin username x.accounts).0 ≡ ok token)

  -- A token that was handed out, and a state that waited for its proof, in which the service
  -- accepted one.
  abbrev pub LoggedIn : Context A R → Type 0
  LoggedIn x₀ =
      (token : ConnectToken) × IsIssued x₀ token
      × (x : Context A R) × Run x₀ (connect_challenge token) x
      × (public_key : List ℕ) × (client_proof : List ℕ) × (server_proof : List ℕ)
      × ((accounts.complete_login token public_key client_proof x.accounts).0 ≡ ok server_proof)

  abbrev pub LoggedInAgain : Context A R → Type 0
  LoggedInAgain x₀ =
      (token : ReconnectToken) × IsReissued x₀ token
      × (x : Context A R) × Run x₀ (reconnect_challenge token) x
      × (proof_data : List ℕ) × (client_proof : List ℕ) × (answer : List ℕ)
      × ((accounts.complete_relogin token proof_data client_proof x.accounts).0 ≡ ok answer)

  -- What must have happened for a connection to be in a state.
  abbrev IsJustified : Context A R → RequestState → Type 0
  IsJustified x₀ start = Unit {0}
  IsJustified x₀ (connect_challenge token) = IsIssued x₀ token
  IsJustified x₀ (reconnect_challenge token) = IsReissued x₀ token
  IsJustified x₀ realmlist = LoggedIn x₀ ⊎ LoggedInAgain x₀
  IsJustified x₀ (rejected command reason) = Unit {0}

  module _ {x₀ : Context A R} (x y x' : Context A R) (st' : RequestState)
      (same : y.accounts ≡ x.accounts) where
    connect_request-IsJustified :
        (r : ConnectRequest) (st : RequestState)
        → Run x₀ st x
        → handle_connect_request c e accounts r y ≡ (ok st', x')
        → IsJustified x₀ st'
    connect_request-IsJustified r st run h =
        elim (connect_request_state c e accounts realms r y x' st' h) [
          | inl (token, username, shown, issued) ↦
              subst (IsJustified x₀) (sym shown) (st, x, run, username, rw same at issued)
          | inr (reason, shown) ↦ subst (IsJustified x₀) (sym shown) tt
        ]

    reconnect_request-IsJustified :
        (r : ConnectRequest) (st : RequestState)
        → Run x₀ st x
        → handle_reconnect_request c e accounts r y ≡ (ok st', x')
        → IsJustified x₀ st'
    reconnect_request-IsJustified r st run h =
        elim (reconnect_request_state c e accounts realms r y x' st' h) [
          | inl (token, username, shown, issued) ↦
              subst (IsJustified x₀) (sym shown) (st, x, run, username, rw same at issued)
          | inr (reason, shown) ↦ subst (IsJustified x₀) (sym shown) tt
        ]

    connect_proof-IsJustified :
        (p : ConnectProof) (token : ConnectToken)
        → Run x₀ (connect_challenge token) x
        → IsIssued x₀ token
        → handle_connect_proof c e accounts p token y ≡ (ok st', x')
        → IsJustified x₀ st'
    connect_proof-IsJustified p token run issued h =
        elim (connect_proof_state c e accounts realms p token y x' st' h) [
          | inl (shown, (server_proof, accepted)) ↦
              let accepted' = rw same at accepted in
              subst (IsJustified x₀) (sym shown) (
                inl
                  (token, issued, x, run, p.user_public_key, p.user_proof, server_proof, accepted'))
          | inr (reason, shown) ↦ subst (IsJustified x₀) (sym shown) tt
        ]

    reconnect_proof-IsJustified :
        (p : ReconnectProof) (token : ReconnectToken)
        → Run x₀ (reconnect_challenge token) x
        → IsReissued x₀ token
        → handle_reconnect_proof c e accounts p token y ≡ (ok st', x')
        → IsJustified x₀ st'
    reconnect_proof-IsJustified p token run issued h =
        elim (reconnect_proof_state c e accounts realms p token y x' st' h) [
          | inl (shown, (answer, accepted)) ↦
              let accepted' = rw same at accepted in
              subst (IsJustified x₀) (sym shown)
                (inr (token, issued, x, run, p.proof_data, p.client_proof, answer, accepted'))
          | inr (reason, shown) ↦ subst (IsJustified x₀) (sym shown) tt
        ]

    dispatch-IsJustified :
        (st : RequestState) (m : Message)
        → Run x₀ st x
        → IsJustified x₀ st
        → dispatch c e accounts realms st m y ≡ (ok st', x')
        → IsJustified x₀ st'
    unfolding dispatch
    dispatch-IsJustified (connect_challenge token) (proof_message p) run j h =
        connect_proof-IsJustified p token run j h
    dispatch-IsJustified (reconnect_challenge token) (re_proof_message p) run j h =
        reconnect_proof-IsJustified p token run j h
    dispatch-IsJustified realmlist (realm_list_message q) run j h =
        subst (IsJustified x₀) (sym (realmlist_state c e accounts realms y x' st' h)) j
    dispatch-IsJustified st (connect_message r) run j h = connect_request-IsJustified r st run h
    dispatch-IsJustified st (re_connect_message r) run j h =
        reconnect_request-IsJustified r st run h
    dispatch-IsJustified st m run j h = cc

  accounts-next_message :
      (x : Context A R) → (next_message c e accounts realms x).1.accounts ≡ x.accounts
  accounts-next_message x = ground arith

  Run-IsJustified : {x₀ x : Context A R} {st : RequestState} → Run x₀ st x → IsJustified x₀ st
  unfolding round
  Run-IsJustified opened = tt
  Run-IsJustified (went_on {st = st} {st' = st'} {x = x} {x' = x'} run h) =
      let y = (next_message c e accounts realms x).1 in
      let (m, read, handled) =
        bind_ok (next_message c e accounts realms) (dispatch c e accounts realms st) x st' x' h in
      dispatch-IsJustified x y x' st' (accounts-next_message x) st m run (Run-IsJustified run)
        handled

  -- On a connection from its start, a request for the realm list is served only after the account
  -- service accepted, on this connection, a proof for a token that it had issued on this
  -- connection, in a login or in a reconnect.
  pub realm_list_needs_proof :
      {x₀ x : Context A R} {st st' : RequestState} (y x' : Context A R) (q : RealmListRequest)
      → Run x₀ st x
      → dispatch c e accounts realms st (realm_list_message q) y ≡ (ok st', x')
      → LoggedIn x₀ ⊎ LoggedInAgain x₀
  unfolding dispatch
  realm_list_needs_proof {st = start} y x' q run h = cc
  realm_list_needs_proof {st = realmlist} y x' q run h = Run-IsJustified run
  realm_list_needs_proof y x' q run h = cc
