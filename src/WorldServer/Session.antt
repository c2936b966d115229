-- ===== src/WorldServer/Session.antt =====
-- services/world/src/world/session.rs and client.rs: a session in the world. The client that a
-- session shares with the server's map is not written once there is the session, which has a copy.
pub mod Delivery
pub mod Owner
pub mod Greeting
use azerust.Prelude.{ℕ, ◌+◌, ◌%◌, ◌^◌, Option, some, none, List, [], ◌∷◌, ◌++◌, length}
use azerust.Prelude.Outcome.{Outcome, ok, err, panic}
use azerust.Prelude.Exec.{Exec, pure, lift, modify, raise_as, on_part, ◌>>=◌, ◌>>◌}
use azerust.Bincode.{Bincode}
use azerust.Game.Characters.{Character}
use azerust.Protocol.World.{OpCode, opcode_code}
use azerust.Protocol.HeaderCrypto.{Ciphers, HeaderCrypto, new_crypto, encrypt}
use azerust.Protocol.Packets.{
  Addon, ClientPacket, ServerPacket, auth_response, addon_info, client_cache_version, tutorial_data,
}
use azerust.WorldServer.Framing.{swap_bytes}
use azerust.WorldServer.Socket.{Writer, write}
use azerust.WorldServer.ServerPackets.{SessionError, write_error, packet_of}

pub record Client : Type 0 where
  pub id : ℕ
  pub account : Option ℕ

-- `Instant::now()`, and the seconds from 1970 on where the clock is not before that
pub record Clock : Type 0 where
  pub instant : ℕ
  pub unix : Option ℕ

module _ (k : Ciphers) where
  pub record Session : Type 0 where
    pub client_id : ℕ
    pub client : Client
    pub stream : Writer
    pub encryption : HeaderCrypto k
    pub latency : ℕ
    pub timeout : ℕ
    pub addons : List Addon
    pub character : Option Character

  unfoldable pub login : Character → Exec Session SessionError (Unit {0})
  login character = modify λ s. record s { character = some character }

  unfoldable pub reset_timeout : Clock → Exec Session SessionError (Unit {0})
  reset_timeout clock = modify λ s. record s { timeout = clock.instant }

  unfoldable pub set_latency : ℕ → Exec Session SessionError (Unit {0})
  set_latency latency = modify λ s. record s { latency = latency }

  -- the queue of the world; its receiver lives as long as the world
  unfoldable pub receive_packet :
      Session → ClientPacket → List (ℕ × ClientPacket) → List (ℕ × ClientPacket)
  receive_packet s p queue = queue ++ (s.client_id, p) ∷ []

  unfoldable pub encrypt_headers : List ℕ → Exec Session SessionError (List ℕ)
  encrypt_headers header s =
      let (header', h) = encrypt k s.encryption header in (ok header', record s { encryption = h })

  module _ (e : Bincode) where
    open e use {put_int}

    -- `bytes.len() as u16 + 2`, a sum that wraps; one `write`, which may take a part of the packet
    unfoldable pub write_packet : OpCode → List ℕ → Exec Session SessionError ℕ
    unfolding swap_bytes opcode_code encrypt_headers
    write_packet opcode bytes = do
      headers ← encrypt_headers (
          put_int 2 (swap_bytes ((length bytes % 2 ^ 16 + 2) % 2 ^ 16))
          ++ put_int 2 (opcode_code opcode))
      raise_as write_error
          (on_part (λ s. s.stream) (λ s w. record s { stream = w }) (write (headers ++ bytes)))

    unfoldable pub send_packet : Clock → ServerPacket → Exec Session SessionError (Unit {0})
    send_packet clock p = do
      packet ← lift (packet_of e clock.unix p)
      _ ← write_packet packet.0 packet.1
      pure tt

    unfoldable pub finalize : Clock → Exec Session SessionError (Unit {0})
    unfolding send_packet
    finalize clock s =
        (do
          _ ← send_packet clock auth_response
          _ ← send_packet clock (addon_info s.addons)
          _ ← send_packet clock (client_cache_version 0)
          send_packet clock tutorial_data)
          s

    -- an error gives the writer back
    finalized : Outcome SessionError (Unit {0}) × Session → Outcome (SessionError × Writer) Session
    finalized (ok _, s) = ok s
    finalized (err error, s) = err (error, s.stream)
    finalized (panic, s) = panic

    unfoldable pub fresh_session : Clock → Client → Writer → List ℕ → List Addon → Session
    fresh_session clock client stream session_key addons = record {
      client_id = client.id;
      client = client;
      stream = stream;
      encryption = new_crypto k session_key;
      latency = 0;
      timeout = clock.instant;
      addons = addons;
      character = none;
    }

    unfoldable pub new_session :
        Clock → Client → Writer → List ℕ → List Addon → Outcome (SessionError × Writer) Session
    unfolding finalized finalize fresh_session
    new_session clock client stream session_key addons =
        finalized (finalize clock (fresh_session clock client stream session_key addons))
