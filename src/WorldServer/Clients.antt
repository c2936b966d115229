-- ===== src/WorldServer/Clients.antt =====
-- `accept_clients` and `connect_loop` of services/world/src/worldserver.rs: the connections of the world
-- server, which it serves one after the other.
pub mod Kept
pub mod Joined
pub mod Served
pub mod Preserved
use azerust.Prelude.{
  ℕ, zero, suc, Option, some, none, Bool, true, false, List, [], ◌∷◌, ◌++◌, if◌then◌else◌,
}
use azerust.Prelude.Maps.{find, insert, remove}
use azerust.Prelude.Outcome.{Outcome, Never, ok, err, panic, ok_or, map_err}
use azerust.Prelude.Exec.{Exec, pure, raise, lift, modify, stop, match_result, on_part, ◌>>=◌, ◌>>◌}
use azerust.Crypto.{Crypto}
use azerust.Bincode.{Bincode}
use azerust.Game.Accounts.{AccountService}
use azerust.Game.Characters.{CharacterService}
use azerust.Protocol.World.{
  OpCode, opcode_code, ResponseCode, response_code, smsg_auth_challenge, smsg_auth_response,
}
use azerust.Protocol.HeaderCrypto.{Ciphers, HeaderCrypto}
use azerust.Protocol.Packets.{
  AuthSession, ClientPacket, auth_session, keep_alive, ping, ready_for_account_data_times,
  char_enum, realm_split, character_create, player_login, character_delete,
}
use azerust.AuthServer.Packets.{put_array}
use azerust.WorldServer.Decode.{Zlib, FrameError}
use azerust.WorldServer.Framing.{Incoming, read_packets, swap_bytes}
use azerust.WorldServer.Socket.{Writer, WriteError, write_all}
use azerust.WorldServer.ServerPackets.{SessionError}
use azerust.WorldServer.Session.{Client, Clock, Session, reset_timeout, receive_packet}
use azerust.WorldServer.World.{World, handle_next}
use azerust.WorldServer.Login.{Server, handle_auth_session}

-- The writer of a client that is refused is dropped with the error.
pub data ConnectError : Type 0 where
  unreadable : FrameError → ConnectError
  no_client invalid_packet : ConnectError
  not_authenticated : Writer → ConnectError
  not_told : WriteError → ConnectError

module _ (k : Ciphers) (A C : Type 0) where
  -- the server, and the reading half of the socket that it serves
  pub record Visit : Type 0 where
    pub server : Server k A C
    pub reader : List (List ℕ)

module _ (e : Bincode) where
  open e use {put_int}

  -- the first bytes to a client
  unfoldable pub hello : List ℕ → List ℕ → List ℕ
  unfolding swap_bytes opcode_code put_array
  hello realm_seed challenge =
      put_int 2 (swap_bytes 42)
      ++ (put_int 2 (opcode_code smsg_auth_challenge)
          ++ (put_int 4 1 ++ (put_array e realm_seed ++ put_array e challenge)))

  unfoldable pub refusal : ResponseCode → List ℕ
  unfolding swap_bytes opcode_code response_code
  refusal code =
      put_int 2 (swap_bytes 6)
      ++ (put_int 2 (opcode_code smsg_auth_response) ++ put_int 4 (response_code code))

  refused : Outcome WriteError (Unit {0}) × Writer → Outcome ConnectError (List ClientPacket)
  refused (ok _, writer) = err (not_authenticated writer)
  refused (err x, writer) = err (not_told x)
  refused (panic, writer) = panic

  unfoldable pub refuse : ResponseCode × Writer → Outcome ConnectError (List ClientPacket)
  unfolding refused refusal
  refuse (code, writer) = refused (write_all (refusal code) writer)

module _ (c : Crypto) (k : Ciphers) (e : Bincode) (z : Zlib) {A C : Type 0}
    (service : AccountService A) (characters : CharacterService C) (realm_id : ℕ)
    (realm_seed : List ℕ) (clock : Clock) where
  abbrev Serve : Type 0 → Type 0
  Serve T = Exec (Visit k A C) ConnectError T

  first_packets : Serve (List ClientPacket)
  first_packets x =
      let (r, i) = read_packets k e z (record { reader = x.reader; encryption = none }) in
      (map_err unreadable r, record x { reader = i.reader })

  get_client : ℕ → Serve Client
  get_client id x = (ok_or (find id x.server.clients) no_client, x)

  -- `packets.drain(..1).next()` has to be the session, and what it leaves is for the world
  log_in : ℕ → Writer → List ClientPacket → Serve (List ClientPacket)
  unfolding get_client refuse
  log_in id writer (auth_session auth ∷ packets) = do
    client ← get_client id
    match_result
        (on_part (λ x. x.server) (λ x s. record x { server = s })
          (handle_auth_session c k e service characters realm_id realm_seed clock client writer
            auth))
        (λ _. pure packets) (λ p. lift (refuse e p))
  log_in id writer [] = stop
  log_in id writer (p ∷ packets) = raise invalid_packet

  -- `connect_loop` up to its loop
  unfoldable pub connect : ℕ → Writer → Serve (List ClientPacket)
  unfolding first_packets log_in
  connect id writer = first_packets >>= λ packets. log_in id writer packets

  pub give_to : ℕ → ClientPacket → Option (Session k) → World k C → World k C
  give_to id packet none w = w
  give_to id packet (some session) w =
      let (_, session') = reset_timeout k clock session in
      record w {
        sessions = insert id session' w.sessions;
        receiver = receive_packet k session' packet w.receiver;
      }

  -- the packets go to the world, and the clock of the session starts again with each
  unfoldable pub give_all : ℕ → List ClientPacket → World k C → World k C
  unfolding give_to
  give_all id [] w = w
  give_all id (p ∷ packets) w = give_all id packets (give_to id p (find id w.sessions) w)

  -- the cipher goes back to the session
  pub put_back : ℕ → Session k → Option (HeaderCrypto k) → World k C → World k C
  put_back id session none w = w
  put_back id session (some h) w = record w {
    sessions = insert id (record session { encryption = h }) w.sessions;
  }

  -- the session of this connection, which nothing takes out of the map
  pub read_for : ℕ → Option (Session k) → Serve (List ClientPacket)
  unfolding put_back
  read_for id none x = (panic, x)
  read_for id (some session) x =
      let (r, i) =
        read_packets k e z (record { reader = x.reader; encryption = some session.encryption }) in
      (
        map_err unreadable r,
        record {
          reader = i.reader;
          server = record x.server { world = put_back id session i.encryption x.server.world };
        },
      )

  -- one round of the loop of `connect_loop`, with the packets that were read before
  unfoldable pub round : ℕ → List ClientPacket → Serve (List ClientPacket)
  unfolding give_all read_for
  round id packets x =
      let server = record x.server { world = give_all id packets x.server.world } in
      read_for id (find id server.world.sessions) (record x { server = server })
