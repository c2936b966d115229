-- ===== src/AuthServer/Connection/Termination.antt =====
-- `connect_loop` ends: every round takes a byte at least off the stream.
use azerust.Prelude.{ℕ, zero, suc, ◌≡◌, ◌<◌, refl, some, List, arith, ap}
use azerust.Prelude.Outcome.{Outcome, ok, err, panic}
use native.Mathlib.Nat.{le_refl}
use azerust.Prelude.Exec.{Exec, raise_as, on_part, pure, raise}
use azerust.Prelude.Falls.{
  Falls, Falls-pure, Falls-raise, Falls-match_result, falls_rules, bind_strict, raise_as_ok,
}
use azerust.Bincode.{Bincode}
use azerust.Crypto.{Crypto}
use azerust.Game.Accounts.{AccountService, ConnectToken, ReconnectToken}
use azerust.Game.Realms.{RealmList}
use azerust.Protocol.Auth.{AuthCommand}
use azerust.AuthServer.Stream.{
  Stream, IoError, write_all, read_exact, read, bytes_left, read_exact_left, read_exact_left_le,
  read_left_le, write_all_left,
}
use azerust.AuthServer.Packets.{ConnectProof, ConnectRequest, ReconnectProof}
use azerust.AuthServer.Message.{
  Message, connect_message, proof_message, re_connect_message, re_proof_message, realm_list_message,
  read_packet, read_body, io_read,
}
use azerust.AuthServer.Handlers.{
  RequestState, connect_challenge, reconnect_challenge, realmlist, rejected, ServerError, io,
  packet, fetch, Context, on_stream, on_accounts, handle_connect_request, handle_connect_proof,
  handle_reconnect_request, handle_reconnect_proof, handle_realmlist, read_username,
}
use azerust.AuthServer.Connection.{dispatch, round, next_message, connect_loop, after_round}

abbrev stream_left : Stream → ℕ
stream_left s = bytes_left s.input

abbrev left_of : {A R : Type 0} → Context A R → ℕ
left_of x = bytes_left x.stream.input

read_exact-Falls : (n : ℕ) → Falls stream_left (read_exact n)
read_exact-Falls n = record { at = read_exact_left_le n }

read-Falls : (n : ℕ) → Falls stream_left (read n)
read-Falls n = record { at = read_left_le n }

write_all-Falls : (bs : List ℕ) → Falls stream_left (write_all bs)
write_all-Falls bs = record { at = λ s. rw write_all_left (le_refl _) }

module _ {A R : Type 0} where
  on_stream-Falls :
      {T : Type 0} (m : Exec Stream IoError T)
      → Falls stream_left m
      → Falls (left_of {A = A} {R = R}) (on_stream m)
  on_stream-Falls m km =
      Falls-match_result (on_part (λ x. x.stream) (λ x s. record x { stream = s }) m) pure
        (λ _. raise io) (record { at = λ x. km.at x.stream }) (λ a. Falls-pure a)
        (λ _. Falls-raise io)

  on_accounts-Falls :
      {E T : Type 0} (m : Exec A E T) → Falls (left_of {A = A} {R = R}) (on_accounts m)
  on_accounts-Falls m = record { at = λ x. le_refl _ }

  read_username-Falls : (n : ℕ) → Falls (left_of {A = A} {R = R}) (read_username n)
  unfolding read_username
  read_username-Falls n = search (falls_rules, on_stream-Falls, read_exact-Falls)

ruleset handler_rules =
    (falls_rules, on_stream-Falls, on_accounts-Falls, read_username-Falls, write_all-Falls)

module _ {A R : Type 0} (c : Crypto) (e : Bincode) (accounts : AccountService A)
    (realms : RealmList R) where
  connect_request-Falls :
      (r : ConnectRequest) → Falls (left_of {A = A} {R = R}) (handle_connect_request c e accounts r)
  unfolding handle_connect_request
  connect_request-Falls r = search handler_rules depth 9

  reconnect_request-Falls :
      (r : ConnectRequest)
      → Falls (left_of {A = A} {R = R}) (handle_reconnect_request c e accounts r)
  unfolding handle_reconnect_request
  reconnect_request-Falls r = search handler_rules depth 9

  connect_proof-Falls :
      (p : ConnectProof) (token : ConnectToken)
      → Falls (left_of {A = A} {R = R}) (handle_connect_proof c e accounts p token)
  unfolding handle_connect_proof
  connect_proof-Falls p token = search handler_rules depth 9

  reconnect_proof-Falls :
      (p : ReconnectProof) (token : ReconnectToken)
      → Falls (left_of {A = A} {R = R}) (handle_reconnect_proof c e accounts p token)
  unfolding handle_reconnect_proof
  reconnect_proof-Falls p token = search handler_rules depth 9

  fetch-Falls : Falls (left_of {A = A} {R = R}) (fetch e realms)
  unfolding fetch
  fetch-Falls = record { at = λ x. le_refl _ }

  realmlist-Falls : Falls (left_of {A = A} {R = R}) (handle_realmlist e realms)
  unfolding handle_realmlist
  realmlist-Falls = search (handler_rules, fetch-Falls) depth 9

  dispatch-Falls :
      (st : RequestState) (m : Message)
      → Falls (left_of {A = A} {R = R}) (dispatch c e accounts realms st m)
  unfolding dispatch
  dispatch-Falls (connect_challenge token) (proof_message p) = connect_proof-Falls p token
  dispatch-Falls (reconnect_challenge token) (re_proof_message p) = reconnect_proof-Falls p token
  dispatch-Falls realmlist (realm_list_message q) = realmlist-Falls
  dispatch-Falls st (connect_message r) = connect_request-Falls r
  dispatch-Falls st (re_connect_message r) = reconnect_request-Falls r
  dispatch-Falls st m = Falls-raise _

read_body-Falls : (e : Bincode) (command : AuthCommand) → Falls stream_left (read_body e command)
unfolding read_body
read_body-Falls e command = search (falls_rules, read-Falls) depth 9

-- Reading a packet takes a byte at least.
read_packet_left :
    (e : Bincode) (s : Stream) (m : Message)
    → (read_packet e s).0 ≡ ok m
    → bytes_left (read_packet e s).1.input < bytes_left s.input
unfolding read_packet
read_packet_left e s m h =
    bind_strict {μ = stream_left} (raise_as (λ _. io_read) (read_exact 1)) _ s m
      (λ bs got.
        let (taken, same) = raise_as_ok (λ _. io_read) (read_exact 1) s bs got in
        rw same (omega (arith, read_exact_left 1 s bs taken)))
      (λ bs. search (falls_rules, read_body-Falls) depth 9) h

module _ {A R : Type 0} (c : Crypto) (e : Bincode) (accounts : AccountService A)
    (realms : RealmList R) where
  next_left :
      (x : Context A R) (m : Message)
      → (next_message c e accounts realms x).0 ≡ ok m
      → left_of (next_message c e accounts realms x).1 < left_of x
  next_left x m got =
      let (read, same) =
        raise_as_ok packet
          (on_part (λ x. x.stream) (λ x s. record x { stream = s }) (read_packet e)) x m got in
      rw same (read_packet_left e x.stream m read)

  pub round_left :
      (st st' : RequestState) (x x' : Context A R)
      → round c e accounts realms st x ≡ (ok st', x')
      → left_of x' < left_of x
  unfolding round
  round_left st st' x x' h =
      rw (← ap (λ (p : Outcome ServerError RequestState × Context A R). p.1) h) (
        bind_strict (next_message c e accounts realms) (dispatch c e accounts realms st) x st'
          (λ m got. next_left x m got) (dispatch-Falls c e accounts realms st)
          (ap (λ (p : Outcome ServerError RequestState × Context A R). p.0) h))

  -- The loop after a round, given that it ends from each next state.
  abbrev Ends : ℕ → RequestState → Context A R → Type 0
  Ends fuel st x =
      (result : Outcome ServerError (Unit {0})) × (x' : Context A R) × (connect_loop c e accounts
          realms fuel st x
        ≡ some (result, x'))

  loop_end :
      (fuel : ℕ) (r : Outcome ServerError RequestState) (x : Context A R)
      → ((st : RequestState) (x : Context A R) → left_of x < fuel → Ends fuel st x)
      → ((st : RequestState) → r ≡ ok st → left_of x < fuel)
      → (result : Outcome ServerError (Unit {0})) × (x' : Context A R) × (after_round c e accounts
            realms
            (connect_loop c e accounts realms fuel)
            r
            x
          ≡ some (result, x'))
  unfolding after_round
  loop_end fuel (ok (rejected command reason)) x more less = (_, _, refl)
  loop_end fuel (ok st) x more less = more st x (less st refl)
  loop_end fuel (err error) x more less = (_, _, refl)
  loop_end fuel panic x more less = (_, _, refl)

  -- With more fuel than there are bytes to come, the loop ends by itself: by a rejection, an error or
  -- a panic, and never for want of fuel.
  pub connect_loop_total :
      (fuel : ℕ) (st : RequestState) (x : Context A R)
      → left_of x < fuel
      → (result : Outcome ServerError (Unit {0})) × (x' : Context A R) × (connect_loop c e accounts
            realms fuel st x
          ≡ some (result, x'))
  unfolding connect_loop
  connect_loop_total zero st x h = absurd (omega arith)
  connect_loop_total (suc fuel) st x h =
      let (result, x') = round c e accounts realms st x in
      loop_end fuel result x' (connect_loop_total fuel)
        (λ st' e. omega (arith, round_left st st' x x' (λ i. (e i, x'))))
