-- ===== src/WorldServer/Steps.antt =====
-- services/world/src/worldserver.rs: the two tasks `accept_clients` and `handle_packets` over one state, as
-- steps between which they take turns.
pub mod Invariant
pub mod Queue
use azerust.Prelude.{ℕ, ◌≡◌, Option, some, none, List, [], ◌∷◌}
use azerust.Prelude.Maps.{insert, remove}
use azerust.Prelude.Outcome.{Outcome, Never, ok, err, panic}
use azerust.Crypto.{Crypto}
use azerust.Bincode.{Bincode}
use azerust.Game.Accounts.{AccountService}
use azerust.Game.Characters.{CharacterService}
use azerust.Protocol.HeaderCrypto.{Ciphers}
use azerust.Protocol.Packets.{ClientPacket}
use azerust.WorldServer.Decode.{Zlib}
use azerust.WorldServer.Socket.{Writer, WriteError, write_all}
use azerust.WorldServer.Session.{Clock}
use azerust.WorldServer.World.{World, handle_next}
use azerust.WorldServer.Login.{Server}
use azerust.WorldServer.Clients.{Visit, ConnectError, hello, connect, round}

module _ (k : Ciphers) (A C : Type 0) where
  -- What `accept_clients` is at: a client that was sent its challenge, or one that has a session and
  -- packets that were read.
  pub data Phase : Type 0 where
    idle : Phase
    greeted : ℕ → Writer → List (List ℕ) → Phase
    serving : ℕ → List ClientPacket → List (List ℕ) → Phase

  pub record Running : Type 0 where
    pub server : Server k A C
    pub phase : Phase

-- What happens next: a connection arrives, with the number and the challenge that are drawn for it;
-- the task of the clients goes on to its next `read`; the world handles its next packet.
pub data Event : Type 0 where
  arrives : ℕ → List ℕ → List (List ℕ) → Writer → Event
  clients_turn : Clock → Event
  world_turn : Clock → Event

module _ (c : Crypto) (k : Ciphers) (e : Bincode) (z : Zlib) {A C : Type 0}
    (service : AccountService A) (characters : CharacterService C) (realm_id : ℕ)
    (realm_seed : List ℕ) where
  greet :
      ℕ
      → List (List ℕ)
      → Server k A C
      → Outcome WriteError (Unit {0}) × Writer
      → Option (Running k A C)
  greet id reader server (ok _, writer) =
      some (record { server = server; phase = greeted id writer reader })
  greet id reader server (_, writer) = none

  -- `accept_clients` up to `connect_loop`; an error of the write ends it, and with it the server
  unfoldable pub accept :
      ℕ → List ℕ → List (List ℕ) → Writer → Server k A C → Option (Running k A C)
  unfolding greet hello
  accept id challenge reader writer server =
      greet id reader
        (record server { clients = insert id (record { id = id; account = none }) server.clients })
        (write_all (hello e realm_seed challenge) writer)

  -- an error of `connect_loop` is logged, and the client removed; a panic ends the server
  left : ℕ → Outcome ConnectError (List ClientPacket) × Visit k A C → Option (Running k A C)
  left id (ok packets, x) = some (record { server = x.server; phase = serving id packets x.reader })
  left id (err _, x) =
      some
        (record { server = record x.server { clients = remove id x.server.clients }; phase = idle })
  left id (panic, x) = none

  go_on : Clock → Server k A C → Phase k A C → Option (Running k A C)
  unfolding left connect round
  go_on clock server idle = some (record { server = server; phase = idle })
  go_on clock server (greeted id writer reader) = left id (
      connect c k e z service characters realm_id realm_seed clock id writer
        (record { server = server; reader = reader }))
  go_on clock server (serving id packets reader) = left id (
      round c k e z service characters realm_id realm_seed clock id packets
        (record { server = server; reader = reader }))

  worked : Running k A C → Outcome Never (Unit {0}) × World k C → Option (Running k A C)
  worked r (ok _, w) = some (record r { server = record r.server { world = w } })
  worked r (_, w) = none

  arrive : Event → Running k A C → Phase k A C → Option (Running k A C)
  unfolding accept
  arrive (arrives id challenge reader writer) r idle = accept id challenge reader writer r.server
  arrive _ r _ = some r

  -- one event; no state behind it when the server ends
  unfoldable pub step : Event → Running k A C → Option (Running k A C)
  unfolding arrive go_on worked
  step (arrives id challenge reader writer) r =
      arrive (arrives id challenge reader writer) r r.phase
  step (clients_turn clock) r = go_on clock r.server r.phase
  step (world_turn clock) r = worked r (handle_next k e characters clock r.server.world)

  -- the server when it starts
  abbrev pub started : A → C → Running k A C
  started accounts s = record {
    server = record {
      accounts = accounts;
      clients = [];
      world = record { sessions = []; receiver = []; characters = s };
    };
    phase = idle;
  }

  pub data Reachable : Running k A C → Type 0 where
    start : (accounts : A) (s : C) → Reachable (started accounts s)
    next :
        (event : Event) (r r' : Running k A C) → Reachable r → step event r ≡ some r' → Reachable r'
