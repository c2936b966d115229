-- ===== src/Srp/Agreement.antt =====
-- The server's half of the key exchange against a client that knows the password.
use azerust.Prelude.{
  ℕ, ◌%◌, ◌^◌, ◌<◌, ◌≡◌, ◌≢◌, ◌∙◌, List, Option, some, none, ◌==◌, arith, le_value, bytes_eq,
  bytes_eq_refl, bytes_eq→eq, Bool-cases, inl, inr, if◌then◌else◌, false,
}
use azerust.Prelude.Outcome.{Outcome, Never, ok, err, panic, ◌>>=◌, bind_assoc}
use azerust.Crypto.{Crypto}
use azerust.Srp.{
  from_credentials, new_with_b, premaster_secret, expected_proof, derive_session_key,
  verify_challenge_response, WowSrpServer, expect_size,
}
use azerust.Srp.Sizes.{modulus, n-eq-modulus, sized, expect_size-mod}
use azerust.Srp.Premaster.{client_secret, new_with_b_ok, premaster_lem, premaster_agreement}

module _ (c : Crypto) where
  open c use {sha1, from_bytes_le, from_bytes_be, to_bytes_le, modpow}

  -- The key that the server derives, and what it answers to a proof with that key.
  pub session_key_of : WowSrpServer → List ℕ → Outcome Never (List ℕ)
  session_key_of server a_pub = sized c (premaster_secret c server a_pub) >>= derive_session_key c

  answer : WowSrpServer → List ℕ → List ℕ → List ℕ → Outcome Never (Option (List ℕ))
  answer server a_pub client_m key =
      let server_m = expected_proof c server.identity_hash server.salt a_pub server.b_pub key in
      ok (if bytes_eq server_m client_m then some key else none)

  premaster-lt :
      (server : WowSrpServer) (a_pub : List ℕ) → premaster_secret c server a_pub < modulus
  premaster-lt server a_pub = rw (premaster_lem c server a_pub) (omega arith)

  sized-premaster :
      (server : WowSrpServer) (a_pub : List ℕ)
      → expect_size 32 (to_bytes_le (premaster_secret c server a_pub))
        ≡ sized c (premaster_secret c server a_pub)
  sized-premaster server a_pub =
      let p = premaster_secret c server a_pub in
      let small : p % modulus ≡ p = omega (arith, premaster-lt server a_pub) in
      rw small at (expect_size-mod c p)

  verify_challenge_response_lem :
      (server : WowSrpServer) (a_pub client_m : List ℕ)
      → verify_challenge_response c server a_pub client_m ≡ (
          if le_value a_pub % modulus == 0
          then ok none
          else (session_key_of server a_pub >>= answer server a_pub client_m))
  unfolding verify_challenge_response session_key_of answer
  verify_challenge_response_lem server a_pub client_m =
      rw (bind_assoc, c.from_bytes_le_lem a_pub, n-eq-modulus c, sized-premaster server a_pub)

  -- A public key that is 0 modulo N is refused, whatever proof comes with it.
  pub verify_zero_key :
      (server : WowSrpServer) (a_pub client_m : List ℕ)
      → le_value a_pub % modulus ≡ 0
      → verify_challenge_response c server a_pub client_m ≡ ok none
  verify_zero_key server a_pub client_m h =
      verify_challenge_response_lem server a_pub client_m ∙ rw h

  answer-some :
      (server : WowSrpServer) (a_pub client_m key : List ℕ) (derived : Outcome Never (List ℕ))
      → (derived >>= answer server a_pub client_m) ≡ ok (some key)
      → (client_m ≡ expected_proof c server.identity_hash server.salt a_pub server.b_pub key)
        × (derived ≡ ok key)
  unfolding answer
  answer-some server a_pub client_m key (ok k) h = ground (
    arith,
    bytes_eq→eq (expected_proof c server.identity_hash server.salt a_pub server.b_pub k) client_m,
  )
  answer-some server a_pub client_m key (err e) h = elim e [ ]
  answer-some server a_pub client_m key panic h = cc

  -- A key is handed out only for a public key that is not 0 modulo N, and only to a client whose
  -- proof is the digest over exactly that key; the key is derived from the premaster secret.
  pub verify_sound :
      (server : WowSrpServer) (a_pub client_m key : List ℕ)
      → verify_challenge_response c server a_pub client_m ≡ ok (some key)
      → (le_value a_pub % modulus ≢ 0)
        × (client_m ≡ expected_proof c server.identity_hash server.salt a_pub server.b_pub key)
        × (session_key_of server a_pub ≡ ok key)
  verify_sound server a_pub client_m key h = elim (Bool-cases (le_value a_pub % modulus == 0)) [
    | inl zero_key ↦ cc (rw (verify_challenge_response_lem, zero_key) at h)
    | inr other ↦
        let (proof, derived) =
          answer-some server a_pub client_m key (session_key_of server a_pub)
            (rw (verify_challenge_response_lem, other) at h) in
        (ground arith, proof, derived)
  ]

  -- The client of `premaster_agreement` is accepted, and both sides hold the key that is derived
  -- from the client's secret: given that A is not 0 and that the secret has 32 bytes.
  pub verify_accepts_client :
      (username password salt verifier b a_pub key : List ℕ) (a : ℕ) (server : WowSrpServer)
      → from_credentials c username password salt ≡ ok verifier
      → new_with_b c username salt verifier b ≡ ok server
      → le_value a_pub ≡ 7 ^ a % modulus
      → 0 < 7 ^ a % modulus
      → (sized c (client_secret c username password salt a a_pub server.b_pub)
          >>= derive_session_key c)
        ≡ ok key
      → verify_challenge_response c server a_pub
          (expected_proof c (sha1 username) salt a_pub server.b_pub key)
        ≡ ok (some key)
  unfolding session_key_of answer
  verify_accepts_client username password salt verifier b a_pub key a server hv hs ha pos hk =
      let (hb, ev, eb, es, ei) = new_with_b_ok c username salt verifier b server hs in
      let proof = expected_proof c (sha1 username) salt a_pub server.b_pub key in
      let nonzero : (le_value a_pub % modulus == 0) ≡ false = ground arith in
      let agreed =
        premaster_agreement c username password salt verifier b a_pub a server hv hs ha in
      verify_challenge_response_lem server a_pub proof
      ∙ rw (nonzero, agreed, hk, es, ei, bytes_eq_refl)
