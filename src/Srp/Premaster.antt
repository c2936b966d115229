-- ===== src/Srp/Premaster.antt =====
-- The premaster secret as the server and a client that knows the password compute it.
use azerust.Prelude.{
  ℕ, ◌+◌, ◌*◌, ◌-◌, ◌%◌, ◌^◌, ◌<◌, ◌≡◌, sym, ap, ◌∙◌, List, ◌++◌, arith, le_value,
}
use azerust.Prelude.Powers.{pow-add, pow-mul, mul-mod_left, mul-mod_right, pow-mod}
use azerust.Prelude.Outcome.{ok}
use azerust.Crypto.{Crypto}
use azerust.Srp.{
  from_credentials, credentials_hash, calculate_b_pub, new_with_b, premaster_secret, WowSrpServer,
}
use azerust.Srp.Sizes.{modulus, modpow-n, sized_ok, from_credentials_lem, calculate_b_pub_lem}
use native.Mathlib.Nat.{mul_comm}

-- The exponents meet: (g^a (g^x)^u)^b = (g^b)^(a + u x) modulo m.
pub exponents_meet :
    (g a x u b m : ℕ)
    → ((g ^ a % m) * ((g ^ x % m) ^ u % m)) ^ b % m ≡ (g ^ b % m) ^ (a + u * x) % m
exponents_meet g a x u b m =
    sym (pow-mod ((g ^ a % m) * ((g ^ x % m) ^ u % m)) b m)
    ∙ ap (λ (k : ℕ). k ^ b % m)
        (mul-mod_left (g ^ a) ((g ^ x % m) ^ u % m) m
          ∙ mul-mod_right (g ^ a) ((g ^ x % m) ^ u) m
          ∙ sym (mul-mod_right (g ^ a) ((g ^ x % m) ^ u) m)
          ∙ ap (λ (k : ℕ). g ^ a * k % m) (pow-mod (g ^ x) u m)
          ∙ mul-mod_right (g ^ a) ((g ^ x) ^ u) m
          ∙ ap (λ (k : ℕ). g ^ a * k % m) (sym (pow-mul g x u))
          ∙ ap (λ (k : ℕ). k % m) (sym (pow-add g a (x * u))))
    ∙ pow-mod (g ^ (a + x * u)) b m
    ∙ ap (λ (k : ℕ). k % m)
        (sym (pow-mul g (a + x * u) b)
          ∙ ap (λ (k : ℕ). g ^ k)
              (mul_comm (a + x * u) b ∙ ap (λ (k : ℕ). b * (a + k)) (mul_comm x u))
          ∙ pow-mul g b (a + u * x))
    ∙ sym (pow-mod (g ^ b) (a + u * x) m)

-- The client takes three times the verifier off the server's public key.
remove_verifier :
    (p v : ℕ)
    → v < modulus
    → ((p % modulus + v * 3) % modulus + modulus * 3 - v * 3) % modulus ≡ p % modulus
remove_verifier p v h = omega arith

module _ (c : Crypto) where
  open c use {sha1, from_bytes_le, from_bytes_be, to_bytes_le, modpow}

  -- The premaster secret as the client computes it from its password, its private exponent `a` and
  -- the public keys.
  unfoldable pub client_secret : List ℕ → List ℕ → List ℕ → ℕ → List ℕ → List ℕ → ℕ
  client_secret username password salt a a_pub b_pub =
      let x = credentials_hash c username password salt in
      let u = from_bytes_le (sha1 (a_pub ++ b_pub)) in
      ((le_value b_pub + modulus * 3 - (7 ^ x % modulus) * 3) % modulus) ^ (a + u * x) % modulus

  pub new_with_b_ok :
      (username salt verifier b : List ℕ) (server : WowSrpServer)
      → new_with_b c username salt verifier b ≡ ok server
      → (calculate_b_pub c b verifier ≡ ok server.b_pub)
        × (server.verifier ≡ verifier)
        × (server.b ≡ b)
        × (server.salt ≡ salt)
        × (server.identity_hash ≡ sha1 username)
  unfolding new_with_b
  new_with_b_ok username salt verifier b server h = ground arith

  pub premaster_lem :
      (server : WowSrpServer) (a_pub : List ℕ)
      → premaster_secret c server a_pub
        ≡ (le_value a_pub
              * (le_value server.verifier ^ from_bytes_le (sha1 (a_pub ++ server.b_pub)) % modulus))
            ^ from_bytes_be server.b
          % modulus
  unfolding premaster_secret
  premaster_lem server a_pub =
      rw (modpow-n c, modpow-n c, c.from_bytes_le_lem a_pub, c.from_bytes_le_lem server.verifier)

  -- What the client gets when it takes its verifier off the public key: 7 ^ b.
  b_pub_without_verifier :
      (username password salt verifier b b_pub : List ℕ)
      → from_credentials c username password salt ≡ ok verifier
      → calculate_b_pub c b verifier ≡ ok b_pub
      → (le_value verifier ≡ 7 ^ credentials_hash c username password salt % modulus)
        × ((le_value b_pub
                + modulus * 3
                - (7 ^ credentials_hash c username password salt % modulus) * 3)
              % modulus
            ≡ 7 ^ from_bytes_be b % modulus)
  b_pub_without_verifier username password salt verifier b b_pub hv hb =
      let x = credentials_hash c username password salt in
      let v : le_value verifier ≡ 7 ^ x % modulus =
        (sized_ok c (7 ^ x % modulus) verifier (omega arith)
          (sym (from_credentials_lem c username password salt) ∙ hv)).1 in
      let value : ℕ = (7 ^ from_bytes_be b % modulus + from_bytes_le verifier * 3) % modulus in
      let bp : le_value b_pub ≡ value =
        (sized_ok c value b_pub (omega arith) (sym (calculate_b_pub_lem c b verifier) ∙ hb)).1 in
      (
        v,
        rw (bp, c.from_bytes_le_lem verifier, v)
            (remove_verifier (7 ^ from_bytes_be b) (7 ^ x % modulus) (omega arith)),
      )

  -- A server built for a verifier that registration made, and a client with the same user name,
  -- password and salt that sends A = 7 ^ a % N, compute one premaster secret.
  pub premaster_agreement :
      (username password salt verifier b a_pub : List ℕ) (a : ℕ) (server : WowSrpServer)
      → from_credentials c username password salt ≡ ok verifier
      → new_with_b c username salt verifier b ≡ ok server
      → le_value a_pub ≡ 7 ^ a % modulus
      → premaster_secret c server a_pub ≡ client_secret username password salt a a_pub server.b_pub
  unfolding client_secret
  premaster_agreement username password salt verifier b a_pub a server hv hs ha =
      let (hb, ev, eb, es, ei) = new_with_b_ok username salt verifier b server hs in
      let (v, without) =
        b_pub_without_verifier username password salt verifier b server.b_pub hv hb in
      premaster_lem server a_pub
      ∙ rw (ev, eb, ha, v, without)
          (exponents_meet 7 a (credentials_hash c username password salt)
            (from_bytes_le (sha1 (a_pub ++ server.b_pub))) (from_bytes_be b) modulus)
