-- ===== src/AuthServer/Message.antt =====
-- services/auth/src/protocol/mod.rs: the messages of a client, read from its stream.
pub mod Reading
pub mod RoundTrip
use azerust.Prelude.{ℕ, ◌≡◌, Option, some, none, List, [], ◌∷◌, length, ◌==◌, not, if◌then◌else◌}
use azerust.Prelude.Outcome
use azerust.Prelude.Outcome.{Outcome, ok, err, panic, ok_or}
use azerust.Prelude.Exec.{Exec, pure, raise, lift, raise_as, ◌>>=◌}
use azerust.Bincode.{Bincode, deserialize}
use azerust.Protocol.Auth.{
  AuthCommand, connect, proof, re_connect, re_proof, realm_list, auth_command_from,
}
use azerust.AuthServer.Stream.{Stream, IoError, read_exact, read}
use azerust.AuthServer.Packets.{
  ConnectRequest, ConnectProof, ReconnectProof, RealmListRequest, connect_request_size,
  connect_proof_size, reconnect_proof_size, realm_list_request_size,
}
use azerust.AuthServer.Readers.{
  get_connect_request, get_connect_proof, get_reconnect_proof, get_realm_list_request,
}

pub data Message : Type 0 where
  connect_message : ConnectRequest → Message
  proof_message : ConnectProof → Message
  re_connect_message : ConnectRequest → Message
  re_proof_message : ReconnectProof → Message
  realm_list_message : RealmListRequest → Message

pub data PacketHandleError : Type 0 where
  decode_error : PacketHandleError
  message_length : ℕ → ℕ → PacketHandleError
  io_read : PacketHandleError
  invalid_command : ℕ → PacketHandleError

unfoldable pub command_len : AuthCommand → ℕ
command_len connect = connect_request_size
command_len proof = connect_proof_size
command_len re_connect = connect_request_size
command_len re_proof = reconnect_proof_size
command_len realm_list = realm_list_request_size

-- `.map(Message::Connect)` and its likes
as_message : {A : Type 0} → (A → Message) → Option A → Outcome PacketHandleError Message
as_message f none = err decode_error
as_message f (some a) = ok (f a)

module _ (e : Bincode) where
  unfoldable pub decode_message : AuthCommand → List ℕ → Outcome PacketHandleError Message
  unfolding as_message
  decode_message connect bytes =
      as_message connect_message (deserialize e (get_connect_request e) bytes)
  decode_message proof bytes = as_message proof_message (deserialize e (get_connect_proof e) bytes)
  decode_message re_connect bytes =
      as_message re_connect_message (deserialize e (get_connect_request e) bytes)
  decode_message re_proof bytes =
      as_message re_proof_message (deserialize e (get_reconnect_proof e) bytes)
  decode_message realm_list bytes =
      as_message realm_list_message (deserialize e (get_realm_list_request e) bytes)

  -- the byte that `read_exact` put into `bytes[0]`
  first : List ℕ → ℕ
  first [] = 0
  first (b ∷ bs) = b

  received : AuthCommand → List ℕ → Exec Stream PacketHandleError Message
  received command bytes =
      if length bytes == command_len command
      then lift (decode_message command bytes)
      else raise (message_length (length bytes) (command_len command))

  unfoldable pub read_body : AuthCommand → Exec Stream PacketHandleError Message
  unfolding received command_len
  read_body command = do
    bytes ← raise_as (λ _. io_read) (read (command_len command))
    received command bytes

  unfoldable pub read_packet : Exec Stream PacketHandleError Message
  unfolding first
  read_packet = do
    bytes ← raise_as (λ _. io_read) (read_exact 1)
    command ← lift (ok_or (auth_command_from (first bytes)) (invalid_command (first bytes)))
    read_body command

  decode_slice : AuthCommand → List ℕ → Outcome PacketHandleError Message
  unfolding as_message
  decode_slice realm_list bytes = ok (realm_list_message (record { bytes = 0 ∷ 0 ∷ 0 ∷ 0 ∷ [] }))
  decode_slice command bytes = decode_message command bytes

  -- `Message::try_from(&[u8])`, which indexes the first byte; a realm list request is a default
  unfoldable pub message_from : List ℕ → Outcome PacketHandleError Message
  unfolding decode_slice
  message_from [] = panic
  message_from (command ∷ bytes) =
      Outcome.◌>>=◌ (ok_or (auth_command_from command) (invalid_command command))
        (λ c. decode_slice c bytes)
