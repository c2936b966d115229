-- ===== src/WorldServer/Framing/Headers.antt =====
-- The header of a packet of a client, as `read_packets` takes it apart, and the slices that follow.
use azerust.Prelude.{
  ℕ, ◌+◌, ◌*◌, ◌/◌, ◌%◌, ◌^◌, ◌<◌, ◌≤◌, ◌≡◌, refl, sym, ap, ◌∙◌, some, List, [], ◌∷◌, ◌++◌, take,
  length, leb, ltb, ◌||◌, le_bytes, take-append, drop-append, length-append, take_all, drop_all,
  arith, true, false,
}
use azerust.Prelude.Outcome.{ok}
use azerust.Bincode.{Bincode, deserialize, finish}
use azerust.Protocol.World.{OpCode, opcode_code, opcode-lt}
use azerust.Protocol.HeaderCrypto.{Ciphers}
use azerust.AuthServer.Stream.{take_some}
use azerust.AuthServer.Message.RoundTrip.{then_read, finish_all}
use azerust.WorldServer.Readers.{get_header}
use azerust.WorldServer.Decode.{Zlib, slice_to, slice_from}
use azerust.WorldServer.Framing.{swap_bytes, slice_body, packets_of, from_buffer}
use mathlib.Core.List.{append_assoc}

-- The size, big endian, and the opcode in four bytes.
abbrev pub header_with : OpCode → ℕ → List ℕ
header_with code size = size / 256 % 256 ∷ size % 256 ∷ le_bytes 4 (opcode_code code)

pub slice_to_ok : (n : ℕ) (xs ys : List ℕ) → length xs ≡ n → slice_to n (xs ++ ys) ≡ ok xs
unfolding slice_to
slice_to_ok n xs ys h =
    let fits : leb n (length (xs ++ ys)) ≡ true = ground (arith, length-append xs ys) in
    rw (fits, take-append n xs ys h)

pub slice_from_ok : (n : ℕ) (xs ys : List ℕ) → length xs ≡ n → slice_from n (xs ++ ys) ≡ ok ys
unfolding slice_from
slice_from_ok n xs ys h =
    let fits : leb n (length (xs ++ ys)) ≡ true = ground (arith, length-append xs ys) in
    rw (fits, drop-append n xs ys h)

pub slice_body_ok :
    (header body rest : List ℕ)
    → length header ≡ 6
    → slice_body (length body + 4) (header ++ (body ++ rest)) ≡ ok body
unfolding slice_body
slice_body_ok header body rest h =
    let inside : (ltb (length body + 4 + 2) 6
          || ltb (length (header ++ (body ++ rest))) (length body + 4 + 2))
        ≡ false =
      ground (arith, length-append header (body ++ rest), length-append body rest) in
    let cut : take (length body + 4 + 2) (header ++ (body ++ rest)) ≡ header ++ body =
      ap (take (length body + 4 + 2)) (sym (append_assoc header body rest))
      ∙ take-append (length body + 4 + 2) (header ++ body) rest
          (omega (arith, length-append header body)) in
    rw (inside, cut, drop-append 6 header body h)

pub swap_lem : (n : ℕ) → n < 2 ^ 16 → swap_bytes (n / 256 % 256 + 256 * (n % 256 + 256 * 0)) ≡ n
unfolding swap_bytes
swap_lem n h = omega arith

pub take_some_whole :
    (n : ℕ) (segment : List ℕ) (segments : List (List ℕ))
    → 0 < length segment
    → length segment ≤ n
    → take_some n (segment ∷ segments) ≡ (segment, [] ∷ segments)
unfolding take_some
take_some_whole n [] segments h fits = absurd (omega arith)
take_some_whole n (b ∷ segment) segments h fits =
    rw (take_all n (b ∷ segment) fits, drop_all n (b ∷ segment) fits) refl

module _ (e : Bincode) where
  get_two :
      (a b : ℕ) (rest : List ℕ) → e.get_int 2 (a ∷ b ∷ rest) ≡ some (a + 256 * (b + 256 * 0), rest)
  get_two a b rest = e.get_int_lem 2 (a ∷ b ∷ []) rest refl

  pub header_lem :
      (code : OpCode) (size : ℕ)
      → deserialize e (get_header e) (header_with code size)
        ≡ some (size / 256 % 256 + 256 * (size % 256 + 256 * 0), opcode_code code)
  unfolding deserialize get_header
  header_lem code size =
      let value : opcode_code code % 256 + 256 * (opcode_code code / 256 % 256 + 256 * 0)
          ≡ opcode_code code =
        omega (arith, opcode-lt code) in
      ap (finish e) (
        then_read _ (get_two (size / 256 % 256) (size % 256) _)
        ∙ then_read _ (get_two (opcode_code code % 256) (opcode_code code / 256 % 256) _)
        ∙ then_read _ (get_two _ _ []))
      ∙ finish_all e _
      ∙ ap (λ v. some (size / 256 % 256 + 256 * (size % 256 + 256 * 0), v)) value

module _ (k : Ciphers) (e : Bincode) (z : Zlib) where
  pub from_buffer_lem :
      (buffer : List ℕ)
      → 0 < length buffer
      → from_buffer k e z buffer ≡ packets_of k e z (length buffer) buffer
  unfolding from_buffer
  from_buffer_lem [] h = absurd (omega arith)
  from_buffer_lem (b ∷ buffer) h = refl
