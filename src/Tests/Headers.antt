-- ===== src/Tests/Headers.antt =====
-- The header encryption with a small stream cipher in place of RC4.
use azerust.Prelude.{
  length, ap, suc, ℕ, ◌≡◌, refl, Bool, true, false, not, List, [], ◌∷◌, ◌==◌, if◌then◌else◌, arith,
}
use azerust.Protocol.HeaderCrypto.{Ciphers, synced, new_crypto, encrypt_key, decrypt_key}
use azerust.Protocol.HeaderCrypto.InSync.{Header, to_client, from_client, talk, headers_in_sync}

-- Every second byte is mixed: 0 and 1 change places.
abbrev mix : Bool → ℕ → ℕ
mix false b = b
mix true b = if b == 0 then 1 else if b == 1 then 0 else b

pub mix_twice : (c : Bool) (b : ℕ) → mix c (mix c b) ≡ b
mix_twice c b = ground arith

abbrev process : Bool → List ℕ → List ℕ × Bool
process c [] = ([], c)
process c (b ∷ bs) = let (out, c') = process (not c) bs in (mix c b ∷ out, c')

pub process_twice :
    (c : Bool) (bytes : List ℕ) → process c (process c bytes).0 ≡ (bytes, (process c bytes).1)
process_twice c [] = refl
process_twice c (b ∷ bs) = rw (process_twice (not c) bs, mix_twice c b) refl

pub length-process : (c : Bool) (bytes : List ℕ) → length (process c bytes).0 ≡ length bytes
length-process c [] = refl
length-process c (b ∷ bs) = ap suc (length-process (not c) bs)

abbrev pub ciphers : Ciphers
ciphers = record {
  Rc4 = Bool;
  new_rc4 = λ key. true;
  process = process;
  process_twice = process_twice;
  length-process = length-process;
  hmac_sha1 = λ key message. message;
}

abbrev headers : List Header
headers = from_client (0 ∷ 4 ∷ 0 ∷ []) ∷ to_client (1 ∷ 0 ∷ []) ∷ from_client (5 ∷ 1 ∷ []) ∷ []

headers_in_sync_example :
    talk ciphers
      (new_crypto ciphers [])
      (record {
        sending = synced ciphers decrypt_key [];
        receiving = synced ciphers encrypt_key [];
      })
      headers
    ≡ (0 ∷ 4 ∷ 0 ∷ []) ∷ (1 ∷ 0 ∷ []) ∷ (5 ∷ 1 ∷ []) ∷ []
headers_in_sync_example = headers_in_sync ciphers [] headers
