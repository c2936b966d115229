-- ===== src/Tests/Srp.antt =====
-- The key exchange, on concrete credentials.
use azerust.Prelude.{
  ℕ, ◌+◌, ◌*◌, ◌≡◌, ◌≢◌, ◌^◌, ◌%◌, refl, List, [], ◌∷◌, some, none, replicate, length, drop,
  bytes_eq, arith, le_value, ◌++◌,
}
use azerust.Prelude.Text.{codes}
use azerust.Prelude.Outcome.{ok, ◌>>=◌}
use azerust.Srp.{
  WowSrpServer, from_credentials, credentials_hash, new_with_b, calculate_b_pub,
  verify_challenge_response, expected_proof, derive_session_key, start_index, left_half, right_half,
  premaster_secret,
}
use azerust.Srp.Sizes.{modulus, sized, from_credentials_lem, calculate_b_pub_lem}
use azerust.Srp.SessionKey.{zero_pairs, derive_session_key_total}
use azerust.Srp.Agreement.{verify_accepts_client, verify_sound, session_key_of}
use azerust.Srp.Premaster.{client_secret}
use azerust.Tests.Instances.{crypto}

abbrev pub alice : List ℕ
alice = codes "ALICE"

abbrev pub salt : List ℕ
salt = replicate 32 1

abbrev pub b : List ℕ
b = replicate 31 0 ++ 90 ∷ []

abbrev pub a_pub : List ℕ
a_pub = crypto.to_bytes_le (7 ^ 95 % modulus)

abbrev pub verifier : List ℕ
verifier = crypto.to_bytes_le (7 ^ 100 % modulus)

abbrev pub b_pub : List ℕ
b_pub = crypto.to_bytes_le ((7 ^ 90 % modulus + (7 ^ 100 % modulus) * 3) % modulus)

abbrev pub server : WowSrpServer
server = record {
  salt = salt;
  verifier = verifier;
  identity_hash = crypto.sha1 alice;
  b = b;
  b_pub = b_pub;
}

pub registered : from_credentials crypto alice (codes "SECRET") salt ≡ ok verifier
unfolding from_credentials credentials_hash
registered = refl

started : new_with_b crypto alice salt verifier b ≡ ok server
unfolding new_with_b calculate_b_pub
started = refl

abbrev secret : List ℕ
secret = crypto.to_bytes_le (client_secret crypto alice (codes "SECRET") salt 95 a_pub b_pub)

abbrev pub key : List ℕ
key = 1 ∷ 1 ∷ replicate 38 0

pub derived :
    (sized crypto (client_secret crypto alice (codes "SECRET") salt 95 a_pub b_pub)
      >>= derive_session_key crypto)
    ≡ ok key
unfolding derive_session_key client_secret credentials_hash
derived = refl

accepted :
    verify_challenge_response crypto server a_pub
      (expected_proof crypto (crypto.sha1 alice) salt a_pub b_pub key)
    ≡ ok (some key)
unfolding verify_challenge_response expected_proof derive_session_key premaster_secret bytes_eq
accepted = refl

-- A proof of another key is refused.
refused : verify_challenge_response crypto server a_pub (replicate 20 1) ≡ ok none
unfolding verify_challenge_response expected_proof derive_session_key premaster_secret bytes_eq
refused = refl

-- Three zero bytes in front of a secret take two pairs with them.
skips_two_pairs : start_index (0 ∷ 0 ∷ 0 ∷ 5 ∷ 0 ∷ 7 ∷ []) ≡ 2
unfolding start_index
skips_two_pairs = refl

verify_accepts_client_example :
    verify_challenge_response crypto server a_pub
      (expected_proof crypto (crypto.sha1 alice) salt a_pub server.b_pub key)
    ≡ ok (some key)
verify_accepts_client_example =
    verify_accepts_client crypto alice (codes "SECRET") salt verifier b a_pub key 95 server
      registered started refl (omega arith) derived

verify_sound_example :
    (le_value a_pub % modulus ≢ 0)
    × (expected_proof crypto (crypto.sha1 alice) salt a_pub b_pub key
        ≡ expected_proof crypto server.identity_hash server.salt a_pub server.b_pub key)
    × (session_key_of crypto server a_pub ≡ ok key)
verify_sound_example =
    verify_sound crypto server a_pub
      (expected_proof crypto (crypto.sha1 alice) salt a_pub b_pub key) key accepted

derive_session_key_total_example :
    (k : List ℕ) × (derive_session_key crypto (replicate 32 3) ≡ ok k)
    × (length k ≡ 40)
    × (left_half k ≡ crypto.sha1 (drop (zero_pairs (replicate 32 3)) (left_half (replicate 32 3))))
    × (right_half k
        ≡ crypto.sha1 (drop (zero_pairs (replicate 32 3)) (right_half (replicate 32 3))))
derive_session_key_total_example = derive_session_key_total crypto (replicate 32 3) refl

from_credentials_lem_example :
    from_credentials crypto alice (codes "SECRET") salt
    ≡ sized crypto (7 ^ credentials_hash crypto alice (codes "SECRET") salt % modulus)
from_credentials_lem_example = from_credentials_lem crypto alice (codes "SECRET") salt

calculate_b_pub_lem_example :
    calculate_b_pub crypto b verifier
    ≡ sized crypto
        ((7 ^ crypto.from_bytes_be b % modulus + crypto.from_bytes_le verifier * 3) % modulus)
calculate_b_pub_lem_example = calculate_b_pub_lem crypto b verifier
