-- ===== src/WorldServer/World/Isolation.antt =====
-- The world keeps the clients of its sessions, and the sessions apart.
use azerust.Prelude.{
  arith, ℕ, ◌≡◌, refl, Option, some, none, false, List, [], ◌∷◌, ◌==◌, if◌then◌else◌, Bool-cases,
  inl, inr,
}
use mathlib.Core.Option
use azerust.Prelude.Maps.{find, find-insert_other, map-insert_same}
use azerust.Prelude.Outcome.{ok}
use azerust.Prelude.Exec.{Exec, on_part}
use azerust.Prelude.Preserves.{Preserves, Preserves-pure, preserves_rules}
use azerust.Bincode.{Bincode}
use azerust.Game.Characters.{Character, CharacterService}
use azerust.Protocol.World.{ResponseCode}
use azerust.Protocol.HeaderCrypto.{Ciphers}
use azerust.Protocol.Packets.{
  NewCharacter, ClientPacket, auth_session, keep_alive, ping, ready_for_account_data_times,
  char_enum, realm_split, character_create, player_login, character_delete, ServerPacket,
}
use azerust.WorldServer.ServerPackets.{SessionError}
use azerust.WorldServer.Session.{
  Client, Clock, Session, login, reset_timeout, set_latency, send_packet,
}
use azerust.WorldServer.Session.Owner.{owner, send_packet-Preserves}
use azerust.WorldServer.World.{
  World, Handling, send, data_of, account, available, make, create, handle_create, handle_packet,
  handle_for, handle_next,
}

module _ (k : Ciphers) (e : Bincode) {C : Type 0} (service : CharacterService C)
    (clock : Clock) where
  module _ (o : ℕ × Client) where
    abbrev IsOwned : Handling k C → Type 0
    IsOwned x = owner k e x.session ≡ o

    on_session-Preserves :
        {A : Type 0} (m : Exec (Session k) SessionError A)
        → Preserves (λ s. owner k e s ≡ o) m
        → Preserves IsOwned (on_part (λ x. x.session) (λ x s. record x { session = s }) m)
    on_session-Preserves m km = record { at = λ x h. km.at x.session h }

    on_characters-Preserves :
        {E A : Type 0} (m : Exec C E A)
        → Preserves IsOwned (on_part (λ x. x.characters) (λ x s. record x { characters = s }) m)
    on_characters-Preserves m = record { at = λ x h. h }

    send-Preserves : (p : ServerPacket) → Preserves IsOwned (send k e service clock p)
    unfolding send
    send-Preserves p =
        on_session-Preserves (send_packet k e clock p) (send_packet-Preserves k e o clock p)

    account-Preserves : Preserves IsOwned (account k e service clock)
    unfolding account
    account-Preserves = record { at = λ x h. h }

    reset-Preserves : Preserves (λ s. owner k e s ≡ o) (reset_timeout k clock)
    unfolding reset_timeout
    reset-Preserves = record { at = λ s h. h }

    latency-Preserves : (n : ℕ) → Preserves (λ s. owner k e s ≡ o) (set_latency k n)
    unfolding set_latency
    latency-Preserves n = record { at = λ s h. h }

    login-Preserves : (c : Character) → Preserves (λ s. owner k e s ≡ o) (login k c)
    unfolding login
    login-Preserves c = record { at = λ s h. h }

    ruleset parts = (
      preserves_rules, on_session-Preserves, on_characters-Preserves, send-Preserves,
      account-Preserves, reset-Preserves, latency-Preserves, login-Preserves,
    )

    data_of-Preserves : (id : Option ℕ) → Preserves IsOwned (data_of k e service clock id)
    unfolding data_of
    data_of-Preserves none = Preserves-pure _
    data_of-Preserves (some id) = search parts depth 9

    make-Preserves : (c : NewCharacter) → Preserves IsOwned (make k e service clock c)
    unfolding make
    make-Preserves c = search parts depth 9

    create-Preserves :
        (c : NewCharacter) (o : Option ResponseCode)
        → Preserves IsOwned (create k e service clock c o)
    unfolding create
    create-Preserves c (some code) = search parts depth 9
    create-Preserves c none = search (parts, make-Preserves) depth 9

    available-Preserves : (name : List ℕ) → Preserves IsOwned (available k e service clock name)
    unfolding available
    available-Preserves name = search parts depth 9

    handle_create-Preserves :
        (c : NewCharacter) → Preserves IsOwned (handle_create k e service clock c)
    unfolding handle_create
    handle_create-Preserves c = search (parts, available-Preserves, create-Preserves) depth 9

    pub handle_packet-Preserves :
        (p : ClientPacket) → Preserves IsOwned (handle_packet k e service clock p)
    unfolding handle_packet
    handle_packet-Preserves (auth_session a) = Preserves-pure _
    handle_packet-Preserves keep_alive = search parts depth 9
    handle_packet-Preserves (ping seq latency) = search parts depth 9
    handle_packet-Preserves ready_for_account_data_times = search (parts, data_of-Preserves) depth 9
    handle_packet-Preserves char_enum = search parts depth 9
    handle_packet-Preserves (realm_split realm) = search parts depth 9
    handle_packet-Preserves (character_create c) = handle_create-Preserves c
    handle_packet-Preserves (player_login guid) = search parts depth 9
    handle_packet-Preserves (character_delete guid) = search parts depth 9

  handle_for-receiver :
      (id : ℕ) (packet : ClientPacket) (found : Option (Session k)) (w : World k C)
      → (handle_for k e service clock id packet found w).1.receiver ≡ w.receiver
  unfolding handle_for
  handle_for-receiver id packet none w = refl
  handle_for-receiver id packet (some s) w = refl

  handle_for-others :
      (id : ℕ) (packet : ClientPacket) (found : Option (Session k)) (w : World k C) (j : ℕ)
      → (id == j) ≡ false
      → find j (handle_for k e service clock id packet found w).1.sessions ≡ find j w.sessions
  unfolding handle_for
  handle_for-others id packet none w j other = refl
  handle_for-others id packet (some s) w j other = find-insert_other j id _ w.sessions other

  handle_for-owners :
      (id : ℕ) (packet : ClientPacket) (found : Option (Session k)) (w : World k C) (j : ℕ)
      → find id w.sessions ≡ found
      → Option.map (owner k e) (find j (handle_for k e service clock id packet found w).1.sessions)
        ≡ Option.map (owner k e) (find j w.sessions)
  unfolding handle_for
  handle_for-owners id packet none w j there = refl
  handle_for-owners id packet (some s) w j there =
      map-insert_same (owner k e) j id s _ w.sessions there (
        (handle_packet-Preserves (owner k e s) packet).at
          (record { session = s; characters = w.characters }) refl)

  -- A packet that the world handles, whatever it is, takes the queue to the next one, leaves the
  -- sessions of all other clients as they are, and leaves each session with the client and the account
  -- that it had.
  pub handle_next-Isolated :
      (w : World k C) (id : ℕ) (packet : ClientPacket) (rest : List (ℕ × ClientPacket)) (j : ℕ)
      → w.receiver ≡ (id, packet) ∷ rest
      → let w' = (handle_next k e service clock w).1 in
        (w'.receiver ≡ rest)
        × (find j w'.sessions ≡ (if id == j then find j w'.sessions else find j w.sessions))
        × (Option.map (owner k e) (find j w'.sessions) ≡ Option.map (owner k e) (find j w.sessions))
  unfolding handle_next
  handle_next-Isolated w id packet rest j queued =
      let start = record w { receiver = rest } in
      let found = find id w.sessions in
      rw (queued, handle_next)
        (
          handle_for-receiver id packet found start,
          elim (Bool-cases (id == j)) [
            | inl same ↦ rw same refl
            | inr other ↦ rw other (handle_for-others id packet found start j other)
          ],
          handle_for-owners id packet found start j refl,
        )

  pub handle_next_empty :
      (w : World k C) → w.receiver ≡ [] → handle_next k e service clock w ≡ (ok tt, w)
  unfolding handle_next
  handle_next_empty w empty = ground arith
