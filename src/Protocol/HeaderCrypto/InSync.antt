-- ===== src/Protocol/HeaderCrypto/InSync.antt =====
-- Both ends of a connection stay in step, in whatever order headers go to and fro.
use azerust.Prelude.{ℕ, ◌≡◌, refl, ap, List, [], ◌∷◌, map}
use azerust.Protocol.HeaderCrypto.{
  Ciphers, HeaderCrypto, synced, new_crypto, encrypt, decrypt, encrypt_key, decrypt_key,
}

-- A header on its way.
pub data Header : Type 0 where
  to_client from_client : List ℕ → Header

abbrev pub content : Header → List ℕ
content (to_client x) = x
content (from_client x) = x

module _ (k : Ciphers) where
  open k use {Rc4, process, process_twice}

  -- The client's two ciphers.
  pub record Client : Type 0 where
    pub sending : Rc4
    pub receiving : Rc4

  -- What the receivers get of the headers that are sent, one after the other.
  abbrev pub talk : HeaderCrypto k → Client → List Header → List (List ℕ)
  talk h c [] = []
  talk h c (to_client x ∷ rest) =
      let (wire, h') = encrypt k h x in
      let (got, r) = process c.receiving wire in got ∷ talk h' (record c { receiving = r }) rest
  talk h c (from_client x ∷ rest) =
      let (wire, s) = process c.sending x in
      let (got, h') = decrypt k h wire in got ∷ talk h' (record c { sending = s }) rest

  talk_lem :
      (encrypting decrypting : Rc4) (headers : List Header)
      → talk
          (record { encrypting = encrypting; decrypting = decrypting })
          (record { sending = decrypting; receiving = encrypting })
          headers
        ≡ map content headers
  unfolding encrypt decrypt
  talk_lem c d [] = refl
  talk_lem c d (to_client x ∷ rest) =
      rw (process_twice c x) (ap (λ r. x ∷ r) (talk_lem (process c x).1 d rest))
  talk_lem c d (from_client x ∷ rest) =
      rw (process_twice d x) (ap (λ r. x ∷ r) (talk_lem c (process d x).1 rest))

  -- For one session key, the server and a client that has its two ciphers the other way round read
  -- every header as it was sent, in whatever order the two directions alternate.
  pub headers_in_sync :
      (session_key : List ℕ) (headers : List Header)
      → talk
          (new_crypto k session_key)
          (record {
            sending = synced k decrypt_key session_key;
            receiving = synced k encrypt_key session_key;
          })
          headers
        ≡ map content headers
  unfolding new_crypto
  headers_in_sync session_key headers =
      talk_lem (synced k encrypt_key session_key) (synced k decrypt_key session_key) headers
