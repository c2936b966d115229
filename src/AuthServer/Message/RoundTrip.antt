-- ===== src/AuthServer/Message/RoundTrip.antt =====
-- The packets of a client come back from their encodings.
use azerust.Prelude.{
  ℕ, zero, suc, ◌^◌, ◌<◌, ◌≡◌, refl, sym, ap, ◌∙◌, Option, some, none, List, [], ◌∷◌, ◌++◌, length,
  All, IsByte, arith, le_bytes, length-le_bytes, le_value-le_bytes,
}
use azerust.Bincode.{Bincode, Reader, get_array, deserialize, finish}
use azerust.AuthServer.Packets.{ConnectRequest, ConnectProof, ReconnectProof, put_array}
use azerust.AuthServer.Readers.{get_connect_request, get_connect_proof, get_reconnect_proof}
use azerust.AuthServer.ClientPackets.{put_connect_request, put_connect_proof, put_reconnect_proof}
use mathlib.Core.List.{append-nil, append_assoc}

-- A Rust array [u8; k].
abbrev pub IsArray : ℕ → List ℕ → Type 0
IsArray k bs = (length bs ≡ k) × All IsByte bs

-- The rest of a decoder, after a part that is known.
pub then_read :
    {A B : Type 0} {o : Option (A × List ℕ)} (f : A → Reader B) {rest : List ℕ} {a : A}
    → o ≡ some (a, rest)
    → (elim o [ none ↦ none | some (b, more) ↦ f b more ]) ≡ f a rest
then_read f h = rw h

module _ (e : Bincode) where
  open e use {put_int, get_int}

  pub get_int-put_int :
      (w n : ℕ) (rest : List ℕ) → n < 256 ^ w → get_int w (put_int w n ++ rest) ≡ some (n, rest)
  get_int-put_int w n rest h = rw (
    e.put_int_lem w n,
    e.get_int_lem w (le_bytes w n) rest (length-le_bytes w n),
    le_value-le_bytes w n h,
  )

  get_byte : (n : ℕ) (rest : List ℕ) → IsByte n → get_int 1 (put_int 1 n ++ rest) ≡ some (n, rest)
  get_byte n rest h = get_int-put_int 1 n rest h

  pub get_last_int : (w n : ℕ) → n < 256 ^ w → get_int w (put_int w n) ≡ some (n, [])
  get_last_int w n h = ap (get_int w) (sym (append-nil (put_int w n))) ∙ get_int-put_int w n [] h

  get_array-put_array :
      (k : ℕ) (bs rest : List ℕ)
      → IsArray k bs
      → get_array e k (put_array e bs ++ rest) ≡ some (bs, rest)
  unfolding get_array put_array
  get_array-put_array zero [] rest h = refl
  get_array-put_array zero (b ∷ bs) rest (h, _) = absurd (omega arith)
  get_array-put_array (suc k) [] rest (h, _) = absurd (omega arith)
  get_array-put_array (suc k) (b ∷ bs) rest (h, (hb, hbs)) =
      ap (get_array e (suc k)) (append_assoc (put_int 1 b) (put_array e bs) rest)
      ∙ then_read _ (get_byte b (put_array e bs ++ rest) hb)
      ∙ then_read _ (get_array-put_array k bs rest (omega arith, hbs))

  pub finish_all : {A : Type 0} (a : A) → finish e (some (a, [])) ≡ some a
  unfolding finish
  finish_all a = rw (e.accepts_rest_lem [])

  -- The arrays of a proof have their sizes, its numbers and their elements are bytes.
  abbrev pub IsConnectProof : ConnectProof → Type 0
  IsConnectProof p =
      IsArray 32 p.user_public_key
      × IsArray 20 p.user_proof
      × IsArray 20 p.crc_hash
      × IsByte p.number_of_keys
      × IsByte p.security_flags

  -- A login proof is decoded to what was encoded.
  pub connect_proof_roundtrip :
      (p : ConnectProof)
      → IsConnectProof p
      → deserialize e (get_connect_proof e) (put_connect_proof e p) ≡ some p
  unfolding deserialize get_connect_proof put_connect_proof
  connect_proof_roundtrip p (h1, h2, h3, h4, h5) =
      ap (finish e) (
        then_read _ (get_array-put_array 32 p.user_public_key _ h1)
        ∙ then_read _ (get_array-put_array 20 p.user_proof _ h2)
        ∙ then_read _ (get_array-put_array 20 p.crc_hash _ h3)
        ∙ then_read _ (get_byte p.number_of_keys _ h4)
        ∙ then_read _ (get_last_int 1 p.security_flags h5))
      ∙ finish_all p

  abbrev pub IsReconnectProof : ReconnectProof → Type 0
  IsReconnectProof p =
      IsArray 16 p.proof_data
      × IsArray 20 p.client_proof
      × IsArray 20 p.unknown
      × IsByte p.key_count

  -- A reconnect proof is decoded to what was encoded.
  pub reconnect_proof_roundtrip :
      (p : ReconnectProof)
      → IsReconnectProof p
      → deserialize e (get_reconnect_proof e) (put_reconnect_proof e p) ≡ some p
  unfolding deserialize get_reconnect_proof put_reconnect_proof
  reconnect_proof_roundtrip p (h1, h2, h3, h4) =
      ap (finish e) (
        then_read _ (get_array-put_array 16 p.proof_data _ h1)
        ∙ then_read _ (get_array-put_array 20 p.client_proof _ h2)
        ∙ then_read _ (get_array-put_array 20 p.unknown _ h3)
        ∙ then_read _ (get_last_int 1 p.key_count h4))
      ∙ finish_all p

  abbrev pub IsConnectRequest : ConnectRequest → Type 0
  IsConnectRequest r =
      IsByte r.error
      × (r.size < 2 ^ 16)
      × IsArray 4 r.game_name
      × IsByte r.version_major
      × IsByte r.version_minor
      × IsByte r.version_patch
      × (r.build < 2 ^ 16)
      × IsArray 4 r.platform
      × IsArray 4 r.os
      × IsArray 4 r.country
      × (r.timezone_bias < 2 ^ 32)
      × IsArray 4 r.ipv4
      × IsByte r.identifier_length

  -- A connect request, of a login or of a reconnect, is decoded to what was encoded.
  pub connect_request_roundtrip :
      (r : ConnectRequest)
      → IsConnectRequest r
      → deserialize e (get_connect_request e) (put_connect_request e r) ≡ some r
  unfolding deserialize get_connect_request put_connect_request
  connect_request_roundtrip r (h1, h2, h3, h4, h5, h6, h7, h8, h9, h10, h11, h12, h13) =
      ap (finish e) (
        then_read _ (get_byte r.error _ h1)
        ∙ then_read _ (get_int-put_int 2 r.size _ h2)
        ∙ then_read _ (get_array-put_array 4 r.game_name _ h3)
        ∙ then_read _ (get_byte r.version_major _ h4)
        ∙ then_read _ (get_byte r.version_minor _ h5)
        ∙ then_read _ (get_byte r.version_patch _ h6)
        ∙ then_read _ (get_int-put_int 2 r.build _ h7)
        ∙ then_read _ (get_array-put_array 4 r.platform _ h8)
        ∙ then_read _ (get_array-put_array 4 r.os _ h9)
        ∙ then_read _ (get_array-put_array 4 r.country _ h10)
        ∙ then_read _ (get_int-put_int 4 r.timezone_bias _ h11)
        ∙ then_read _ (get_array-put_array 4 r.ipv4 _ h12)
        ∙ then_read _ (get_last_int 1 r.identifier_length h13))
      ∙ finish_all r
