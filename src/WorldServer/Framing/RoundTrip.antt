-- ===== src/WorldServer/Framing/RoundTrip.antt =====
-- What a client sends in one segment is read back, packet for packet.
use azerust.Prelude.{
  ℕ, zero, suc, ◌+◌, ◌*◌, ◌^◌, ◌<◌, ◌≤◌, ◌≡◌, refl, sym, ap, ◌∙◌, Option, some, none, List, [], ◌∷◌,
  ◌++◌, map, length, All, length-append, arith,
}
use azerust.Prelude.Outcome.{ok}
use azerust.Prelude.Exec.{◌>>=◌, pure}
use azerust.Bincode.{Bincode}
use azerust.Protocol.World.{OpCode, opcode_from-code}
use azerust.Protocol.Packets.{ClientPacket}
use azerust.Protocol.HeaderCrypto.{Ciphers, HeaderCrypto, decrypt}
use azerust.AuthServer.Stream.{take_some}
use azerust.WorldServer.Decode.{Zlib, slice_from, read_packet}
use azerust.WorldServer.Framing.{
  Incoming, decrypt_headers, next_packet, packets_of, from_buffer, read_packets,
}
use azerust.WorldServer.Framing.Headers.{
  header_with, header_lem, slice_to_ok, slice_from_ok, slice_body_ok, swap_lem, take_some_whole,
  from_buffer_lem,
}
use mathlib.Core.List.{append_assoc}

-- The size is that of the body and of the opcode.
abbrev pub client_header : OpCode → ℕ → List ℕ
client_header code n = header_with code (n + 4)

-- A packet as it is sent, with what it means.
pub record Sent : Type 0 where
  pub code : OpCode
  pub body : List ℕ
  pub parsed : ClientPacket

module _ (k : Ciphers) (e : Bincode) (z : Zlib) where
  open k use {Rc4, process, process_twice, length-process}

  -- the client's cipher for what it sends
  abbrev pub cipher_of : Option (HeaderCrypto k) → Option Rc4
  cipher_of none = none
  cipher_of (some h) = some h.decrypting

  abbrev sealed : Option Rc4 → List ℕ → List ℕ × Option Rc4
  sealed none x = (x, none)
  sealed (some c) x = let (out, c') = process c x in (out, some c')

  abbrev pub wire : Option Rc4 → List Sent → List ℕ
  wire c [] = []
  wire c (m ∷ ms) =
      let (header, c') = sealed c (client_header m.code (length m.body)) in
      header ++ (m.body ++ wire c' ms)

  -- the session's ciphers behind a header
  abbrev after : List ℕ → Option (HeaderCrypto k) → Option (HeaderCrypto k)
  after x none = none
  after x (some h) = some (record h { decrypting = (process h.decrypting x).1 })

  length-sealed : (c : Option Rc4) (x : List ℕ) → length (sealed c x).0 ≡ length x
  length-sealed none x = refl
  length-sealed (some c) x = length-process c x

  sealed-after :
      (s : Option (HeaderCrypto k)) (x : List ℕ)
      → (sealed (cipher_of s) x).1 ≡ cipher_of (after x s)
  sealed-after none x = refl
  sealed-after (some h) x = refl

  decrypt_lem :
      (s : Option (HeaderCrypto k)) (x : List ℕ)
      → decrypt_headers k e z (sealed (cipher_of s) x).0 s ≡ (ok x, after x s)
  unfolding decrypt_headers decrypt
  decrypt_lem none x = refl
  decrypt_lem (some h) x = rw (process_twice h.decrypting x) refl

  -- the bodies fit their size fields, and mean what they are sent for
  abbrev pub IsSent : Sent → Type 0
  IsSent m = (length m.body + 4 < 2 ^ 16) × (read_packet e z m.code m.body ≡ ok m.parsed)

  abbrev header_of : Sent → List ℕ
  header_of m = client_header m.code (length m.body)

  next_packet_lem :
      (m : Sent) (rest : List ℕ) (s : Option (HeaderCrypto k))
      → IsSent m
      → next_packet k e z ((sealed (cipher_of s) (header_of m)).0 ++ (m.body ++ rest)) s
        ≡ (ok (m.parsed, rest), after (header_of m) s)
  unfolding next_packet
  next_packet_lem m rest s (fits, means) =
      let out = (sealed (cipher_of s) (header_of m)).0 in
      let six : length out ≡ 6 = length-sealed (cipher_of s) (header_of m) in
      let behind : slice_from (6 + length m.body) (out ++ (m.body ++ rest)) ≡ ok rest =
        ap (slice_from (6 + length m.body)) (sym (append_assoc out m.body rest))
        ∙ slice_from_ok (6 + length m.body) (out ++ m.body) rest
            (omega (arith, length-append out m.body)) in
      rw (
        slice_to_ok 6 out (m.body ++ rest) six,
        decrypt_lem s (header_of m),
        header_lem e m.code (length m.body + 4),
        opcode_from-code m.code,
        swap_lem (length m.body + 4) fits,
        slice_body_ok out m.body rest six,
        behind,
        means,
      )

  packets_of_round :
      (fuel : ℕ) (buffer : List ℕ) (s s' : Option (HeaderCrypto k)) (p : ClientPacket)
      (rest : List ℕ)
      → 0 < length buffer
      → next_packet k e z buffer s ≡ (ok (p, rest), s')
      → packets_of k e z (suc fuel) buffer s
        ≡ (packets_of k e z fuel rest >>= λ packets. pure (p ∷ packets)) s'
  unfolding packets_of
  packets_of_round fuel [] s s' p rest some_left h = absurd (omega arith)
  packets_of_round fuel (b ∷ buffer) s s' p rest some_left h = rw h

  all_after : List Sent → Option (HeaderCrypto k) → Option (HeaderCrypto k)
  all_after [] s = s
  all_after (m ∷ ms) s = all_after ms (after (header_of m) s)

  packets_of_lem :
      (fuel : ℕ) (ms : List Sent) (s : Option (HeaderCrypto k))
      → length ms ≤ fuel
      → All IsSent ms
      → packets_of k e z fuel (wire (cipher_of s) ms) s
        ≡ (ok (map (λ m. m.parsed) ms), all_after ms s)
  unfolding packets_of all_after
  packets_of_lem fuel [] s h sent = refl
  packets_of_lem zero (m ∷ ms) s h sent = absurd (omega arith)
  packets_of_lem (suc fuel) (m ∷ ms) s h (now, later) =
      let out = (sealed (cipher_of s) (header_of m)).0 in
      let behind = wire (sealed (cipher_of s) (header_of m)).1 ms in
      let s' = after (header_of m) s in
      let many : 0 < length (out ++ (m.body ++ behind)) =
        omega (
          arith,
          length-append out (m.body ++ behind),
          length-sealed (cipher_of s) (header_of m),
        ) in
      let rest : packets_of k e z fuel behind s' ≡ (ok (map (λ m. m.parsed) ms), all_after ms s') =
        ap (λ c. packets_of k e z fuel (wire c ms) s') (sealed-after s (header_of m))
        ∙ packets_of_lem fuel ms s' (omega arith) later in
      packets_of_round fuel (out ++ (m.body ++ behind)) s s' m.parsed behind many
        (next_packet_lem m behind s now)
      ∙ rw rest

  -- the client's cipher behind what it sent
  abbrev pub wire_end : Option Rc4 → List Sent → Option Rc4
  wire_end c [] = c
  wire_end c (m ∷ ms) = wire_end (sealed c (client_header m.code (length m.body))).1 ms

  wire_end_after :
      (ms : List Sent) (s : Option (HeaderCrypto k))
      → cipher_of (all_after ms s) ≡ wire_end (cipher_of s) ms
  unfolding all_after
  wire_end_after [] s = refl
  wire_end_after (m ∷ ms) s =
      wire_end_after ms (after (header_of m) s)
      ∙ ap (λ c. wire_end c ms) (sym (sealed-after s (header_of m)))

  length-wire : (ms : List Sent) (c : Option Rc4) → length ms * 6 ≤ length (wire c ms)
  length-wire [] c = omega arith
  length-wire (m ∷ ms) c =
      let (out, c') = sealed c (header_of m) in
      omega (
        arith,
        length-sealed c (header_of m),
        length-append out (m.body ++ wire c' ms),
        length-append m.body (wire c' ms),
        length-wire ms c',
      )

  -- One read of a segment of at most 2048 bytes, in which a client sent one packet or more with its
  -- cipher (or, before there is a session, with none), each with a body that fits its size field
  -- and that is understood, returns those packets in their order and leaves the session's cipher in
  -- step with the client's.
  pub read_packets-wire :
      (x : Incoming k e z) (ms : List Sent) (segments : List (List ℕ))
      → All IsSent ms
      → 0 < length ms
      → length (wire (cipher_of x.encryption) ms) ≤ 2048
      → x.reader ≡ wire (cipher_of x.encryption) ms ∷ segments
      → ((read_packets k e z x).0 ≡ ok (map (λ m. m.parsed) ms))
        × (cipher_of (read_packets k e z x).1.encryption ≡ wire_end (cipher_of x.encryption) ms)
  unfolding read_packets
  read_packets-wire x ms segments sent some_sent fits arrives =
      let buffer = wire (cipher_of x.encryption) ms in
      let long = length-wire ms (cipher_of x.encryption) in
      let got : take_some 2048 x.reader ≡ (buffer, [] ∷ segments) =
        ap (take_some 2048) arrives ∙ take_some_whole 2048 buffer segments (omega arith) fits in
      let run : from_buffer k e z buffer x.encryption
          ≡ (ok (map (λ m. m.parsed) ms), all_after ms x.encryption) =
        ap (λ f. f x.encryption) (from_buffer_lem k e z buffer (omega arith))
        ∙ packets_of_lem (length buffer) ms x.encryption (omega arith) sent in
      rw (got, run) (refl, wire_end_after ms x.encryption)
