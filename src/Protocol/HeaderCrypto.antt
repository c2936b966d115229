-- ===== src/Protocol/HeaderCrypto.antt =====
-- crates/protocol/src/header_crypto.rs: the encryption of the packet headers of the world server. The
-- crate `rust-crypto` is the record Ciphers: `process` of its RC4 returns the output and the cipher
-- after it.
pub mod InSync
use azerust.Prelude.{ℕ, zero, suc, ◌≡◌, refl, sym, ap, ◌∙◌, List, [], ◌∷◌, length, replicate, arith}

pub record Ciphers : Type 1 where
  pub Rc4 : Type 0
  pub new_rc4 : List ℕ → Rc4
  pub process : Rc4 → List ℕ → List ℕ × Rc4
  -- the same cipher, from the same state, undoes what it did, and gets to the same state
  pub process_twice :
      (c : Rc4) (bytes : List ℕ) → process c (process c bytes).0 ≡ (bytes, (process c bytes).1)
  pub length-process : (c : Rc4) (bytes : List ℕ) → length (process c bytes).0 ≡ length bytes
  -- HMAC with SHA-1, of a key and a message
  pub hmac_sha1 : List ℕ → List ℕ → List ℕ

abbrev pub decrypt_key : List ℕ
decrypt_key =
    0xC2 ∷ 0xB3 ∷ 0x72 ∷ 0x3C ∷ 0xC6 ∷ 0xAE ∷ 0xD9 ∷ 0xB5 ∷ 0x34 ∷ 0x3C ∷ 0x53 ∷ 0xEE ∷ 0x2F ∷ 0x43
    ∷ 0x67 ∷ 0xCE ∷ []

abbrev pub encrypt_key : List ℕ
encrypt_key =
    0xCC ∷ 0x98 ∷ 0xAE ∷ 0x04 ∷ 0xE8 ∷ 0x97 ∷ 0xEA ∷ 0xCA ∷ 0x12 ∷ 0xDD ∷ 0xC0 ∷ 0x93 ∷ 0x42 ∷ 0x91
    ∷ 0x53 ∷ 0x57 ∷ []

module _ (k : Ciphers) where
  open k use {Rc4, new_rc4, process, hmac_sha1}

  pub record HeaderCrypto : Type 0 where
    pub encrypting : Rc4
    pub decrypting : Rc4

  -- the cipher of a key, with its first 1024 bytes dropped
  unfoldable pub synced : List ℕ → List ℕ → Rc4
  synced key session_key = (process (new_rc4 (hmac_sha1 key session_key)) (replicate 1024 0)).1

  unfoldable pub new_crypto : List ℕ → HeaderCrypto
  unfolding synced
  new_crypto session_key = record {
    encrypting = synced encrypt_key session_key;
    decrypting = synced decrypt_key session_key;
  }

  unfoldable pub encrypt : HeaderCrypto → List ℕ → List ℕ × HeaderCrypto
  encrypt h header =
      let (out, c) = process h.encrypting header in (out, record h { encrypting = c })

  unfoldable pub decrypt : HeaderCrypto → List ℕ → List ℕ × HeaderCrypto
  decrypt h header =
      let (out, c) = process h.decrypting header in (out, record h { decrypting = c })
