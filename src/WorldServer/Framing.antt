-- ===== src/WorldServer/Framing.antt =====
-- `read_packets` of services/world/src/protocol/mod.rs: the packets in what one `read` returns.
pub mod Headers
pub mod RoundTrip
pub mod Faults
pub mod Loop
use azerust.Prelude.{
  ℕ, zero, suc, ◌+◌, ◌*◌, ◌/◌, ◌%◌, Option, some, none, List, [], ◌∷◌, take, drop, length, leb, ltb,
  ◌||◌, if◌then◌else◌,
}
use azerust.Prelude.Outcome.{Outcome, ok, err, panic, ok_or}
use azerust.Prelude.Exec.{Exec, pure, raise, lift, stop, on_part, ◌>>=◌}
use azerust.Bincode.{Bincode, deserialize}
use azerust.Protocol.World.{OpCode, opcode_from}
use azerust.Protocol.Packets.{ClientPacket}
use azerust.Protocol.HeaderCrypto.{Ciphers, HeaderCrypto, decrypt}
use azerust.AuthServer.Stream.{take_some}
use azerust.WorldServer.Readers.{get_header}
use azerust.WorldServer.Decode.{
  Zlib, FrameError, connection_closed, decode_error, unknown_op_code, slice_to, slice_from,
  read_packet,
}

-- `u16::swap_bytes`
unfoldable pub swap_bytes : ℕ → ℕ
swap_bytes n = n % 256 * 256 + n / 256 % 256

-- `&buffer[6..size + 2]`
unfoldable pub slice_body : ℕ → List ℕ → Outcome FrameError (List ℕ)
slice_body size buffer =
    if ltb (size + 2) 6 || ltb (length buffer) (size + 2)
    then panic
    else ok (drop 6 (take (size + 2) buffer))

module _ (k : Ciphers) (e : Bincode) (z : Zlib) where
  -- the reading half of the socket, and the encryption of the session if there is one
  pub record Incoming : Type 0 where
    pub reader : List (List ℕ)
    pub encryption : Option (HeaderCrypto k)

  abbrev Frames : Type 0 → Type 0
  Frames A = Exec (Option (HeaderCrypto k)) FrameError A

  unfoldable pub decrypt_headers : List ℕ → Frames (List ℕ)
  decrypt_headers x none = (ok x, none)
  decrypt_headers x (some h) = let (x', h') = decrypt k h x in (ok x', some h')

  -- one round of the loop: a packet, and the buffer behind it
  unfoldable pub next_packet : List ℕ → Frames (ClientPacket × List ℕ)
  unfolding slice_to slice_from slice_body swap_bytes decrypt_headers
  next_packet buffer = do
    encrypted ← lift (slice_to 6 buffer)
    header ← decrypt_headers encrypted
    fields ← lift (ok_or (deserialize e (get_header e) header) decode_error)
    code ← lift (ok_or (opcode_from fields.1) (unknown_op_code fields.1))
    packet ← lift (slice_body (swap_bytes fields.0) buffer)
    rest ← lift (slice_from (6 + length packet) buffer)
    parsed ← lift (read_packet e z code packet)
    pure (parsed, rest)

  -- `while !buffer.is_empty()`, with fuel for its rounds
  unfoldable pub packets_of : ℕ → List ℕ → Frames (List ClientPacket)
  packets_of fuel [] = pure []
  packets_of zero (b ∷ buffer) = stop
  packets_of (suc fuel) (b ∷ buffer) =
      next_packet (b ∷ buffer) >>= λ p. packets_of fuel p.1 >>= λ packets. pure (p.0 ∷ packets)

  unfoldable pub from_buffer : List ℕ → Frames (List ClientPacket)
  from_buffer [] = raise connection_closed
  from_buffer (b ∷ buffer) = packets_of (length (b ∷ buffer)) (b ∷ buffer)

  unfoldable pub read_packets : Exec Incoming FrameError (List ClientPacket)
  unfolding from_buffer packets_of
  read_packets x =
      let (buffer, reader) = take_some 2048 x.reader in
      on_part (λ i. i.encryption) (λ i h. record i { encryption = h }) (from_buffer buffer)
        (record x { reader = reader })
