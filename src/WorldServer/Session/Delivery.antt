-- ===== src/WorldServer/Session/Delivery.antt =====
-- What a session sends and what its client reads: the session is a queue of packets.
use azerust.Prelude.{
  ℕ, zero, suc, ◌+◌, ◌-◌, ◌*◌, ◌/◌, ◌%◌, ◌^◌, ◌<◌, ◌≡◌, refl, sym, ap, ◌∙◌, Option, some, none,
  List, [], ◌∷◌, ◌++◌, map, take, drop, length, ltb, ◌||◌, if◌then◌else◌, All, le_bytes,
  take-append, drop-append, length-append, arith, false,
}
use azerust.Prelude.Outcome.{ok}
use azerust.Prelude.Exec.{Exec, pure, ◌>>=◌}
use azerust.Bincode.{Bincode}
use azerust.Protocol.World.{OpCode, opcode_code, opcode-lt}
use azerust.Protocol.Packets.{ServerPacket}
use azerust.Protocol.HeaderCrypto.{Ciphers, encrypt}
use azerust.WorldServer.Framing.{swap_bytes}
use azerust.WorldServer.Socket.{write}
use azerust.WorldServer.ServerPackets.{SessionError, packet_of}
use azerust.WorldServer.Session.{Session, Clock, encrypt_headers, write_packet, send_packet}
use mathlib.Core.List.{append_assoc, append-nil}

-- The size, of the opcode and of the body, and the opcode.
abbrev server_header : OpCode → ℕ → List ℕ
server_header code n = (n + 2) / 256 % 256 ∷ (n + 2) % 256 ∷ le_bytes 2 (opcode_code code)

-- the size and the opcode of a header
abbrev fields_of : List ℕ → Option (ℕ × ℕ)
fields_of (a ∷ b ∷ c ∷ d ∷ []) = some (a * 256 + b, c + 256 * d)
fields_of _ = none

-- A packet with what is written of it.
pub record Frame : Type 0 where
  pub packet : ServerPacket
  pub code : OpCode
  pub body : List ℕ

fields_lem :
    (code : OpCode) (n : ℕ)
    → n + 2 < 2 ^ 16
    → fields_of (server_header code n) ≡ some (n + 2, opcode_code code)
fields_lem code n h =
    let size : (n + 2) / 256 % 256 * 256 + (n + 2) % 256 ≡ n + 2 = omega arith in
    let opcode : opcode_code code % 256 + 256 * (opcode_code code / 256 % 256) ≡ opcode_code code =
      omega (arith, opcode-lt code) in
    rw (size, opcode) refl

module _ (k : Ciphers) where
  open k use {Rc4, process, process_twice, length-process}

  -- the body behind a header with these fields, and the bytes behind the body
  abbrev cut_body : Option (ℕ × ℕ) → List ℕ → Option ((ℕ × List ℕ) × List ℕ)
  cut_body none bytes = none
  cut_body (some (size, code)) bytes =
      if ltb size 2 || ltb (length bytes + 2) size
      then none
      else some ((code, take (size - 2) bytes), drop (size - 2) bytes)

  abbrev put_front : (ℕ × List ℕ) → Option (List (ℕ × List ℕ)) → Option (List (ℕ × List ℕ))
  put_front p none = none
  put_front p (some ps) = some (p ∷ ps)

  -- The client: it decrypts each header with its cipher, and reads the body that the header
  -- announces, until nothing is left.
  abbrev pub client_read : ℕ → Rc4 → List ℕ → Option (List (ℕ × List ℕ))
  client_read fuel c [] = some []
  client_read zero c (b ∷ bytes) = none
  client_read (suc fuel) c (b ∷ bytes) =
      elim (cut_body (fields_of (process c (take 4 (b ∷ bytes))).0) (drop 4 (b ∷ bytes))) [
        | none ↦ none
        | some (p, rest) ↦ put_front p (client_read fuel (process c (take 4 (b ∷ bytes))).1 rest)
      ]

  cut_body_ok :
      (code : ℕ) (body rest : List ℕ)
      → cut_body (some (length body + 2, code)) (body ++ rest) ≡ some ((code, body), rest)
  cut_body_ok code body rest =
      let inside : (ltb (length body + 2) 2 || ltb (length (body ++ rest) + 2) (length body + 2))
          ≡ false =
        ground (arith, length-append body rest) in
      let n : length body + 2 - 2 ≡ length body = omega arith in
      rw
        (
          inside,
          n,
          take-append (length body) body rest refl,
          drop-append (length body) body rest refl,
        )
        refl

  client_read_round :
      (fuel : ℕ) (c c' : Rc4) (bytes header : List ℕ) (p : ℕ × List ℕ) (rest : List ℕ)
      → 0 < length bytes
      → process c (take 4 bytes) ≡ (header, c')
      → cut_body (fields_of header) (drop 4 bytes) ≡ some (p, rest)
      → client_read (suc fuel) c bytes ≡ put_front p (client_read fuel c' rest)
  client_read_round fuel c c' [] header p rest many opened cut = absurd (omega arith)
  client_read_round fuel c c' (b ∷ bytes) header p rest many opened cut =
      rw (opened, cut, client_read) (ap (λ o. put_front p (client_read fuel o.1 rest)) opened)

  client_read_lem :
      (fuel : ℕ) (c : Rc4) (code : OpCode) (body rest : List ℕ)
      → length body + 2 < 2 ^ 16
      → client_read
          (suc fuel)
          c
          ((process c (server_header code (length body))).0 ++ (body ++ rest))
        ≡ put_front
            (opcode_code code, body)
            (client_read fuel (process c (server_header code (length body))).1 rest)
  client_read_lem fuel c code body rest fits =
      let header = server_header code (length body) in
      let out = (process c header).0 in
      let four : length out ≡ 4 = length-process c header in
      client_read_round fuel c (process c header).1 (out ++ (body ++ rest)) header
        (opcode_code code, body) rest (omega (arith, length-append out (body ++ rest)))
        (ap (process c) (take-append 4 out (body ++ rest) four) ∙ process_twice c header)
        (ap (cut_body (fields_of header)) (drop-append 4 out (body ++ rest) four)
          ∙ ap (λ f. cut_body f (body ++ rest)) (fields_lem code (length body) fits)
          ∙ cut_body_ok (opcode_code code) body rest)

  module _ (e : Bincode) (clock : Clock) where
    header_lem :
        (code : OpCode) (n : ℕ)
        → n + 2 < 2 ^ 16
        → e.put_int 2 (swap_bytes ((n % 2 ^ 16 + 2) % 2 ^ 16)) ++ e.put_int 2 (opcode_code code)
          ≡ server_header code n
    unfolding swap_bytes
    header_lem code n h =
        let v : (n % 2 ^ 16 + 2) % 2 ^ 16 ≡ n + 2 = omega arith in
        let low : ((n + 2) % 256 * 256 + (n + 2) / 256 % 256) % 256 ≡ (n + 2) / 256 % 256 =
          omega arith in
        let high : ((n + 2) % 256 * 256 + (n + 2) / 256 % 256) / 256 % 256 ≡ (n + 2) % 256 =
          omega arith in
        rw (v, e.put_int_lem 2 _, e.put_int_lem 2 (opcode_code code), low, high) refl

    -- the session behind a packet that was sent whole
    abbrev behind : OpCode → List ℕ → Session k → Session k
    behind code body s =
        let (header, c) = process s.encryption.encrypting (server_header code (length body)) in
        record s {
          stream = record { output = s.stream.output ++ (header ++ body); limits = [] };
          encryption = record s.encryption { encrypting = c };
        }

    send_packet_lem :
        (p : ServerPacket) (code : OpCode) (body : List ℕ) (s : Session k)
        → packet_of e clock.unix p ≡ ok (code, body)
        → length body + 2 < 2 ^ 16
        → s.stream.limits ≡ []
        → send_packet k e clock p s ≡ (ok tt, behind code body s)
    unfolding send_packet write_packet encrypt_headers encrypt write
    send_packet_lem p code body s is fits whole =
        rw (is, header_lem code (length body) fits, whole) refl

    -- the packets that `send_packet` is called with, one after the other
    abbrev pub send_all : List ServerPacket → Exec (Session k) SessionError (Unit {0})
    send_all [] = pure tt
    send_all (p ∷ ps) = send_packet k e clock p >>= λ _. send_all ps

    -- what is written of a packet, and that its size fits the header
    abbrev pub IsFrame : Frame → Type 0
    IsFrame f =
        (packet_of e clock.unix f.packet ≡ ok (f.code, f.body)) × (length f.body + 2 < 2 ^ 16)

    -- While every write takes all its bytes, a session that sends packets whose bodies fit the size
    -- field delivers them: its client, with the same cipher, reads from the bytes that were added
    -- to the stream exactly the opcodes and the bodies of those packets, in their order.
    pub send_all-delivers :
        (fs : List Frame) (s : Session k)
        → All IsFrame fs
        → s.stream.limits ≡ []
        → ((send_all (map (λ f. f.packet) fs) s).0 ≡ ok tt)
          × (bytes : List ℕ) × ((send_all (map (λ f. f.packet) fs) s).1.stream.output
              ≡ s.stream.output ++ bytes)
          × (client_read (length fs) s.encryption.encrypting bytes
              ≡ some (map (λ f. (opcode_code f.code, f.body)) fs))
    send_all-delivers [] s frames whole = (refl, [], sym (append-nil _), refl)
    send_all-delivers (f ∷ fs) s ((is, fits), frames) whole =
        let s' = behind f.code f.body s in
        let (fine, bytes, added, got) = send_all-delivers fs s' frames refl in
        let (header, c) = process s.encryption.encrypting (server_header f.code (length f.body)) in
        let step = send_packet_lem f.packet f.code f.body s is fits whole in
        (
          rw step fine,
          header ++ (f.body ++ bytes),
          rw step (
              added
              ∙ append_assoc s.stream.output (header ++ f.body) bytes
              ∙ ap (λ r. s.stream.output ++ r) (append_assoc header f.body bytes)),
          client_read_lem (length fs) s.encryption.encrypting f.code f.body bytes fits
              ∙ ap (put_front (opcode_code f.code, f.body)) got,
        )
