-- ===== src/WorldServer/Steps/Invariant.antt =====
-- Whatever happens, a session in the world belongs to a client that has logged in to an account.
use azerust.Prelude.{ℕ, ◌≡◌, refl, Option, some, none, List, [], ◌∷◌}
use mathlib.Core.Path.{subst}
use azerust.Prelude.Maps.{find}
use azerust.Prelude.Outcome.{Outcome, Never, ok, err, panic}
use azerust.Crypto.{Crypto}
use azerust.Bincode.{Bincode}
use azerust.Game.Accounts.{AccountService}
use azerust.Game.Characters.{CharacterService}
use azerust.Protocol.HeaderCrypto.{Ciphers}
use azerust.Protocol.Packets.{ClientPacket}
use azerust.WorldServer.Decode.{Zlib}
use azerust.WorldServer.Socket.{Writer, WriteError}
use azerust.WorldServer.Session.{Clock, Session}
use azerust.WorldServer.World.{World, handle_next}
use azerust.WorldServer.World.Isolation.{handle_next-Isolated, handle_next_empty}
use azerust.WorldServer.Login.{Server}
use azerust.WorldServer.Clients.{Visit, ConnectError}
use azerust.WorldServer.Clients.Preserved.{
  IsLoggedIn, same-IsLoggedIn, connect-Preserves, round-Preserves,
}
use azerust.WorldServer.Steps.{
  Phase, idle, greeted, serving, Running, Event, arrives, clients_turn, world_turn, greet, accept,
  left, go_on, worked, arrive, step, Reachable, start, next,
}

-- the state behind an event, where there is one
abbrev pub OnSome : {T : Type 0} → (T → Type 0) → Option T → Type 0
OnSome P none = Unit {0}
OnSome P (some t) = P t

module _ (c : Crypto) (k : Ciphers) (e : Bincode) (z : Zlib) {A C : Type 0}
    (service : AccountService A) (characters : CharacterService C) (realm_id : ℕ)
    (realm_seed : List ℕ) where
  abbrev pub Holds : Running k A C → Type 0
  Holds r = IsLoggedIn k e r.server.world.sessions

  greet_lem :
      (id : ℕ) (reader : List (List ℕ)) (s : Server k A C) (r : Outcome WriteError (Unit {0}))
      (writer : Writer)
      → IsLoggedIn k e s.world.sessions
      → OnSome Holds (greet c k e z service characters realm_id realm_seed id reader s (r, writer))
  unfolding greet
  greet_lem id reader s (ok _) writer h = h
  greet_lem id reader s (err _) writer h = tt
  greet_lem id reader s panic writer h = tt

  left_lem :
      (id : ℕ) (r : Outcome ConnectError (List ClientPacket)) (x : Visit k A C)
      → IsLoggedIn k e x.server.world.sessions
      → OnSome Holds (left c k e z service characters realm_id realm_seed id (r, x))
  unfolding left
  left_lem id (ok _) x h = h
  left_lem id (err _) x h = h
  left_lem id panic x h = tt

  go_on_lem :
      (clock : Clock) (s : Server k A C) (phase : Phase k A C)
      → IsLoggedIn k e s.world.sessions
      → OnSome Holds (go_on c k e z service characters realm_id realm_seed clock s phase)
  unfolding go_on
  go_on_lem clock s idle h = h
  go_on_lem clock s (greeted id writer reader) h = left_lem id _ _ (
      (connect-Preserves c k e z service characters realm_id realm_seed clock id writer).at
        (record { server = s; reader = reader }) h)
  go_on_lem clock s (serving id packets reader) h = left_lem id _ _ (
      (round-Preserves c k e z service characters realm_id realm_seed clock id packets).at
        (record { server = s; reader = reader }) h)

  worked_lem :
      (r : Running k A C) (o : Outcome Never (Unit {0})) (w : World k C)
      → IsLoggedIn k e w.sessions
      → OnSome Holds (worked c k e z service characters realm_id realm_seed r (o, w))
  unfolding worked
  worked_lem r (ok _) w h = h
  worked_lem r (err _) w h = tt
  worked_lem r panic w h = tt

  handle_next-IsLoggedIn :
      (clock : Clock) (w : World k C) (queue : List (ℕ × ClientPacket))
      → w.receiver ≡ queue
      → IsLoggedIn k e w.sessions
      → IsLoggedIn k e (handle_next k e characters clock w).1.sessions
  handle_next-IsLoggedIn clock w [] empty h = rw (handle_next_empty k e characters clock w empty) h
  handle_next-IsLoggedIn clock w ((id, packet) ∷ rest) queued h =
      same-IsLoggedIn k e w.sessions (handle_next k e characters clock w).1.sessions
        (λ j. (handle_next-Isolated k e characters clock w id packet rest j queued).2) h

  arrive_lem :
      (id : ℕ) (challenge : List ℕ) (reader : List (List ℕ)) (writer : Writer) (r : Running k A C)
      (phase : Phase k A C)
      → Holds r
      → OnSome Holds (
          arrive c k e z service characters realm_id realm_seed
            (arrives id challenge reader writer)
            r
            phase)
  unfolding arrive accept
  arrive_lem id challenge reader writer r idle h = greet_lem id reader _ _ _ h
  arrive_lem id challenge reader writer r (greeted _ _ _) h = h
  arrive_lem id challenge reader writer r (serving _ _ _) h = h

  step_lem :
      (event : Event) (r : Running k A C)
      → Holds r
      → OnSome Holds (step c k e z service characters realm_id realm_seed event r)
  unfolding step
  step_lem (arrives id challenge reader writer) r h =
      arrive_lem id challenge reader writer r r.phase h
  step_lem (clients_turn clock) r h = go_on_lem clock r.server r.phase h
  step_lem (world_turn clock) r h =
      worked_lem r _ _ (handle_next-IsLoggedIn clock r.server.world r.server.world.receiver refl h)

  pub reachable_lem :
      (r : Running k A C) → Reachable c k e z service characters realm_id realm_seed r → Holds r
  unfolding IsLoggedIn find
  reachable_lem _ (start accounts s) = λ j t there. cc
  reachable_lem _ (next event r r' before goes) =
      subst (OnSome Holds) goes (step_lem event r (reachable_lem r before))

  -- However connections arrive, and however the task that serves them and the world take turns, as
  -- long as the server runs: a session in the world stands under the number of its client, and that
  -- client has an account.
  pub sessions_have_accounts :
      (r : Running k A C) (j : ℕ) (s : Session k)
      → Reachable c k e z service characters realm_id realm_seed r
      → find j r.server.world.sessions ≡ some s
      → (s.client_id ≡ j) × (s.client.id ≡ j) × (a : ℕ) × (s.client.account ≡ some a)
  unfolding IsLoggedIn
  sessions_have_accounts r j s reached there = reachable_lem r reached j s there
