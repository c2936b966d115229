-- ===== src/AuthServer/Connection.antt =====
-- `AuthServer::connect_loop` of services/auth/src/authserver.rs.
pub mod Termination
pub mod Handled
pub mod Access
pub mod Arrival
use azerust.Prelude.{
  ℕ, zero, suc, Option, some, none, List, [], ◌∷◌, ◌++◌, map, length, ltb, ◌==◌, if◌then◌else◌,
}
use azerust.Prelude.Outcome.{Outcome, ok, err, panic}
use azerust.Prelude.Exec.{Exec, pure, raise, on_part, raise_as, ◌>>=◌, ◌>>◌}
use azerust.Bincode.{Bincode}
use azerust.Crypto.{Crypto}
use azerust.Game.Accounts.{AccountService}
use azerust.Game.Realms.{RealmList}
use azerust.AuthServer.Stream.{Stream, write_all}
use azerust.AuthServer.Packets.{put_reply}
use azerust.AuthServer.Message.{
  Message, connect_message, proof_message, re_connect_message, re_proof_message, realm_list_message,
  PacketHandleError, read_packet,
}
use azerust.AuthServer.Handlers.{
  RequestState, start, connect_challenge, reconnect_challenge, realmlist, rejected, ServerError,
  packet, proof_before_request, bad_state, Context, on_stream, handle_connect_request,
  handle_connect_proof, handle_reconnect_request, handle_reconnect_proof, handle_realmlist,
}

module _ {A R : Type 0} (c : Crypto) (e : Bincode) (accounts : AccountService A)
    (realms : RealmList R) where
  -- the `match (state, message)` of the loop
  unfoldable pub dispatch : RequestState → Message → Exec (Context A R) ServerError RequestState
  dispatch state (connect_message r) = handle_connect_request c e accounts r
  dispatch state (re_connect_message r) = handle_reconnect_request c e accounts r
  dispatch (connect_challenge token) (proof_message p) = handle_connect_proof c e accounts p token
  dispatch (reconnect_challenge token) (re_proof_message p) =
      handle_reconnect_proof c e accounts p token
  dispatch realmlist (realm_list_message _) = handle_realmlist e realms
  dispatch state (proof_message p) = raise proof_before_request
  dispatch state (re_proof_message p) = raise proof_before_request
  dispatch state message = raise bad_state

  abbrev pub next_message : Exec (Context A R) ServerError Message
  next_message =
      raise_as packet (on_part (λ x. x.stream) (λ x s. record x { stream = s }) (read_packet e))

  -- one round of the loop: a message and its handler
  unfoldable pub round : RequestState → Exec (Context A R) ServerError RequestState
  unfolding dispatch
  round state = do message ← next_message; dispatch state message

  abbrev pub LoopEnd : Type 0
  LoopEnd = Option (Outcome ServerError (Unit {0}) × Context A R)

  -- What follows a round: a rejection is written and ends the loop, another state goes on.
  unfoldable pub after_round :
      (RequestState → Context A R → LoopEnd)
      → Outcome ServerError RequestState
      → Context A R
      → LoopEnd
  after_round more (ok (rejected command reason)) x =
      some (on_stream (write_all (put_reply e command reason)) x)
  after_round more (ok state) x = more state x
  after_round more (err error) x = some (err error, x)
  after_round more panic x = some (panic, x)

  -- `connect_loop` with fuel for its rounds; `none` means that the fuel ran out
  unfoldable pub connect_loop : ℕ → RequestState → Context A R → LoopEnd
  unfolding after_round
  connect_loop zero state x = none
  connect_loop (suc fuel) state x =
      let (result, x') = round state x in after_round (connect_loop fuel) result x'
