-- ===== src/Tests/Visit.antt =====
-- A client of the world server that arrives and logs in.
use azerust.Prelude.{
  map, arith, ℕ, ◌+◌, ◌≡◌, refl, Option, some, none, List, [], ◌∷◌, ◌++◌, replicate, length,
}
use azerust.Prelude.Maps.{find, insert}
use azerust.Prelude.Text.{codes}
use azerust.Prelude.Outcome.{Outcome, ok, err}
use azerust.Game.Accounts.{
  Account, AccountService, AccountFetchError, AccountOpError, persist_error, database_error,
}
use azerust.Game.Accounts
use azerust.MysqlCharacters.{Db, service}
use azerust.Prelude.{bytes_eq}
use azerust.Protocol.World.{ResponseCode}
use azerust.Protocol.Packets.{AuthSession}
use azerust.WorldServer.Socket.{Writer, write, write_all}
use azerust.AuthServer.Stream.{take_some}
use azerust.Prelude.Utf8.{is_utf8}
use azerust.Bincode.{deserialize, finish, get_array}
use azerust.Protocol.World.{opcode_from, opcode_code}
use azerust.WorldServer.Readers.{get_header, get_auth_session}
use azerust.WorldServer.Decode.{
  slice_to, slice_from, position_zero, read_addons, read_auth_session, read_packet,
}
use azerust.WorldServer.Framing.{
  swap_bytes, read_packets, from_buffer, packets_of, next_packet, slice_body, decrypt_headers,
}
use azerust.WorldServer.Clients.{hello, connect}
use azerust.WorldServer.ServerPackets.{packet_of}
use azerust.WorldServer.Session.{
  Client, Session, new_session, finalize, send_packet, write_packet, encrypt_headers,
}
use azerust.WorldServer.World.{create_session}
use azerust.WorldServer.Login.{Server, handle_auth_session, server_proof}
use azerust.Protocol.HeaderCrypto.{synced, encrypt_key}
use azerust.WorldServer.Session.Delivery.{client_read}
use azerust.WorldServer.Session.Greeting.{greeting}
use azerust.WorldServer.World.Joining.{with_session}
use azerust.WorldServer.Login.Complete.{handle_auth_session_complete}
use azerust.WorldServer.Login.Sound.{Joined, handle_auth_session_sound}
use azerust.WorldServer.Steps.{
  Reachable, Running, Event, arrives, clients_turn, step, started, start, next,
}
use azerust.Tests.Instances.{bincode, crypto}
use azerust.Tests.Headers.{ciphers}
use azerust.Tests.Characters.{tables}
use azerust.Tests.World.{zlib, clock, player}

abbrev jaina : Account
jaina = record {
  id = 9;
  username = codes "JAINA";
  email = [];
  ban_status = none;
  salt = [];
  verifier = [];
  session_key = some (replicate 40 3);
  joindate = 0;
  last_login = none;
  online = 0;
}

-- One account; the state counts the questions after it.
abbrev pub accounts : AccountService ℕ
accounts = record {
  list_account = λ s. (ok (jaina ∷ []), s);
  create_account = λ name password email s. (err Accounts.persist_error, s);
  delete_account = λ id s. (err Accounts.persist_error, s);
  get = λ id s. (ok jaina, s);
  get_by_username = λ name s. (ok (some jaina), s + 1);
  initiate_login = λ name s. (err database_error, s);
  complete_login = λ token key proof s. (err database_error, s);
  initiate_relogin = λ name s. (err database_error, s);
  complete_relogin = λ token proof_data proof s. (err database_error, s);
  set_ban = λ id author duration reason s. (err Accounts.persist_error, s);
}

abbrev proof : List ℕ
proof = 1 ∷ replicate 19 0

abbrev pub auth : AuthSession
auth = record {
  build = 12340;
  server_id = 0;
  username = codes "JAINA";
  login_server_type = 0;
  region_id = 0;
  local_challenge = 1 ∷ 2 ∷ 3 ∷ 4 ∷ [];
  client_proof = proof;
  addons = [];
  battlegroup_id = 0;
  realm_id = 1;
  dos_response = 0;
}

abbrev pub writer : Writer
writer = record { output = []; limits = [] }

abbrev pub waiting : Client
waiting = record { id = 7; account = none }

abbrev server : Server ciphers ℕ Db
server = record {
  accounts = 0;
  clients = (7, waiting) ∷ [];
  world = record { sessions = []; receiver = []; characters = tables };
}

abbrev pub seed : List ℕ
seed = 5 ∷ 6 ∷ 7 ∷ 8 ∷ []

abbrev logged_in : Outcome (ResponseCode × Writer) (Unit {0}) × Server ciphers ℕ Db
logged_in =
    handle_auth_session crypto ciphers bincode accounts (service bytes_eq) 1 seed clock waiting
      writer auth server

handle_auth_session_sound_example :
    Joined crypto ciphers bincode accounts
      (service bytes_eq)
      1
      seed
      clock
      waiting
      writer
      auth
      server
      logged_in.1
unfolding handle_auth_session server_proof bytes_eq create_session new_session finalize send_packet
    packet_of write_packet encrypt_headers write
handle_auth_session_sound_example =
    handle_auth_session_sound crypto ciphers bincode accounts (service bytes_eq) 1 seed clock
      waiting writer auth server logged_in.1 refl

abbrev body : List ℕ
body =
    0x34 ∷ 0x30 ∷ 0 ∷ 0 ∷ 0 ∷ 0 ∷ 0 ∷ 0 ∷ codes "JAINA"
    ++ 0 ∷ 0 ∷ 0 ∷ 0 ∷ 0 ∷ 1 ∷ 2 ∷ 3 ∷ 4 ∷ 0 ∷ 0 ∷ 0 ∷ 0 ∷ 0 ∷ 0 ∷ 0 ∷ 0 ∷ 1 ∷ 0 ∷ 0 ∷ 0 ∷ 0 ∷ 0 ∷ 0
      ∷ 0 ∷ 0 ∷ 0 ∷ 0 ∷ 0 ∷ proof
    ++ (4 ∷ 0 ∷ 0 ∷ 0 ∷ 0 ∷ 0 ∷ 0 ∷ 0 ∷ [])

abbrev segment : List ℕ
segment = 0 ∷ (length body + 4) ∷ 0xED ∷ 1 ∷ 0 ∷ 0 ∷ body

abbrev Run : Type 0
Run = Running ciphers ℕ Db

abbrev stepped : Event → Run → Option Run
stepped = step crypto ciphers bincode zlib accounts (service bytes_eq) 1 seed

abbrev or_else : {T : Type 0} → T → Option T → T
or_else t none = t
or_else t (some u) = u

abbrev run0 : Run
run0 = started crypto ciphers bincode zlib accounts (service bytes_eq) 1 seed 0 tables

abbrev arrival : Event
arrival = arrives 7 (replicate 32 9) (segment ∷ []) writer

abbrev run1 : Run
run1 = or_else run0 (stepped arrival run0)

abbrev pub run2 : Run
run2 = or_else run0 (stepped (clients_turn clock) run1)

abbrev pub guest : Session ciphers
guest = or_else player (find 7 run2.server.world.sessions)

-- the server once it has let a client in
pub reached : Reachable crypto ciphers bincode zlib accounts (service bytes_eq) 1 seed run2
unfolding step hello swap_bytes write_all find insert connect read_packets handle_auth_session
    server_proof bytes_eq create_session new_session finalize send_packet packet_of write_packet
    encrypt_headers write take_some from_buffer packets_of next_packet slice_to slice_from
    slice_body decrypt_headers opcode_from opcode_code deserialize finish get_header read_packet
    read_auth_session read_addons position_zero get_auth_session get_array is_utf8
reached = next (clients_turn clock) run1 run2 (next arrival run0 run1 (start 0 tables) refl) refl

pub guest_found : find 7 run2.server.world.sessions ≡ some guest
unfolding step hello swap_bytes write_all find insert connect read_packets handle_auth_session
    server_proof bytes_eq create_session new_session finalize send_packet packet_of write_packet
    encrypt_headers write take_some from_buffer packets_of next_packet slice_to slice_from
    slice_body decrypt_headers opcode_from opcode_code deserialize finish get_header read_packet
    read_auth_session read_addons position_zero get_auth_session get_array is_utf8
guest_found = refl

abbrev member : Client
member = record { id = 7; account = some 9 }

handle_auth_session_complete_example :
    (session : Session ciphers) × (logged_in ≡ (
      ok tt,
      record {
        accounts = 1;
        clients = insert 7 member ((7, waiting) ∷ []);
        world = with_session ciphers bincode (service bytes_eq) clock session server.world;
      },
    ))
    × (session.client ≡ member)
    × (bytes : List ℕ) × (session.stream.output ≡ [] ++ bytes)
    × (client_read ciphers 4 (synced ciphers encrypt_key (replicate 40 3)) bytes
        ≡ some (map (λ f. (opcode_code f.code, f.body)) (greeting ciphers bincode clock [])))
unfolding server_proof
handle_auth_session_complete_example =
    handle_auth_session_complete crypto ciphers bincode accounts (service bytes_eq) 1 seed clock
      waiting writer auth server jaina (replicate 40 3) refl refl refl refl refl refl (omega arith)
