-- ===== src/Srp.antt =====
-- crates/wow-srp/src/lib.rs: the server side of the SRP6 variant.
-- An array [u8; n] is a list of n numbers below 256. `expect` on a failed conversion to such an
-- array is `panic`. The two random arrays, the salt and `b`, are arguments.
pub mod SessionKey
pub mod Sizes
pub mod Premaster
pub mod Agreement
use azerust.Prelude.{
  ℕ, zero, suc, ◌+◌, ◌*◌, ◌/◌, ◌%◌, Bool, true, false, Option, none, some, List, [], ◌∷◌, ◌++◌,
  length, drop, leb, ◌==◌, if◌then◌else◌, bytes_eq,
}
use azerust.Prelude.Outcome.{Outcome, Never, ok, panic, ◌>>=◌}
use azerust.Crypto.{Crypto}
use Prim.Native.Nat.{bit_xor}

abbrev pub g_bytes : List ℕ
g_bytes = 7 ∷ []

abbrev pub n_bytes : List ℕ
n_bytes =
    0x89 ∷ 0x4B ∷ 0x64 ∷ 0x5E ∷ 0x89 ∷ 0xE1 ∷ 0x53 ∷ 0x5B ∷ 0xBD ∷ 0xAD ∷ 0x5B ∷ 0x8B ∷ 0x29 ∷ 0x06
    ∷ 0x50 ∷ 0x53 ∷ 0x08 ∷ 0x01 ∷ 0xB1 ∷ 0x8E ∷ 0xBF ∷ 0xBF ∷ 0x5E ∷ 0x8F ∷ 0xAB ∷ 0x3C ∷ 0x82
    ∷ 0x87 ∷ 0x2A ∷ 0x3E ∷ 0x9B ∷ 0xB7 ∷ []

-- `to_vec().try_into::<[u8; size]>().expect(..)`
pub expect_size : ℕ → List ℕ → Outcome Never (List ℕ)
expect_size size bytes = if length bytes == size then ok bytes else panic

-- `&bytes[start..]`
pub slice_from : List ℕ → ℕ → Outcome Never (List ℕ)
slice_from bytes start = if leb start (length bytes) then ok (drop start bytes) else panic

-- `left[i] = split[0]` over `chunks(2)`; the array has an even length
pub left_half : List ℕ → List ℕ
left_half [] = []
left_half (a ∷ []) = a ∷ []
left_half (a ∷ b ∷ rest) = a ∷ left_half rest

-- `right[i] = split[1]`
pub right_half : List ℕ → List ℕ
right_half [] = []
right_half (a ∷ []) = []
right_half (a ∷ b ∷ rest) = b ∷ right_half rest

-- `enumerate().find(|(_, &v)| v != 0)` from index `i` on
pub find_nonzero : List ℕ → ℕ → Option (ℕ × ℕ)
find_nonzero [] i = none
find_nonzero (v ∷ rest) i = if v == 0 then find_nonzero rest (i + 1) else some (i, v)

after_zeros : Option (ℕ × ℕ) → ℕ → ℕ
after_zeros none len = len
after_zeros (some (i, v)) len = if v == 0 then i else i + 1

unfoldable pub start_index : List ℕ → ℕ
unfolding after_zeros find_nonzero
start_index secret = after_zeros (find_nonzero secret 0) (length secret) / 2

-- `original[0] = left[i]; original[1] = right[i]`
pub interleave : List ℕ → List ℕ → List ℕ
interleave [] ys = []
interleave (x ∷ xs) [] = []
interleave (x ∷ xs) (y ∷ ys) = x ∷ y ∷ interleave xs ys

pub record WowSrpServer : Type 0 where
  pub salt : List ℕ
  pub verifier : List ℕ
  pub identity_hash : List ℕ
  pub b : List ℕ
  pub b_pub : List ℕ

xor_bytes : List ℕ → List ℕ → List ℕ
xor_bytes [] ys = []
xor_bytes (x ∷ xs) [] = []
xor_bytes (x ∷ xs) (y ∷ ys) = bit_xor x y ∷ xor_bytes xs ys

module _ (c : Crypto) where
  open c use {sha1, from_bytes_le, from_bytes_be, to_bytes_le, modpow}

  abbrev pub g : ℕ
  g = from_bytes_be g_bytes

  abbrev pub n : ℕ
  n = from_bytes_be n_bytes

  -- the private exponent that the credentials and the salt stand for
  unfoldable pub credentials_hash : List ℕ → List ℕ → List ℕ → ℕ
  credentials_hash username password salt =
      let inner = sha1 (username ++ (b':' ∷ password)) in from_bytes_le (sha1 (salt ++ inner))

  unfoldable pub from_credentials : List ℕ → List ℕ → List ℕ → Outcome Never (List ℕ)
  unfolding expect_size
  from_credentials username password salt =
      expect_size 32 (to_bytes_le (modpow g (credentials_hash username password salt) n))

  -- the salt that `rng.gen()` draws is an argument
  unfoldable pub register : List ℕ → List ℕ → List ℕ → Outcome Never (List ℕ × List ℕ)
  register username password salt = do
    verifier ← from_credentials username password salt
    ok (verifier, salt)

  unfoldable pub calculate_b_pub : List ℕ → List ℕ → Outcome Never (List ℕ)
  unfolding expect_size
  calculate_b_pub b v =
      let fst = modpow g (from_bytes_be b) n in
      let snd = from_bytes_le v * 3 in expect_size 32 (to_bytes_le ((fst + snd) % n))

  unfoldable pub new_with_b : List ℕ → List ℕ → List ℕ → List ℕ → Outcome Never WowSrpServer
  new_with_b username salt verifier b = do
    b_pub ← calculate_b_pub b verifier
    ok (record {
      salt = salt;
      verifier = verifier;
      identity_hash = sha1 username;
      b = b;
      b_pub = b_pub;
    })

  unfoldable pub get_g : WowSrpServer → List ℕ
  get_g server = to_bytes_le g

  unfoldable pub get_n : WowSrpServer → List ℕ
  get_n server = to_bytes_le n

  unfoldable pub get_server_proof : WowSrpServer → List ℕ → List ℕ → List ℕ → List ℕ
  get_server_proof server a_pub client_proof session_key =
      sha1 (a_pub ++ (client_proof ++ session_key))

  unfoldable pub derive_session_key : List ℕ → Outcome Never (List ℕ)
  unfolding slice_from left_half right_half start_index interleave
  derive_session_key secret = do
    let start = start_index secret
    left ← slice_from (left_half secret) start
    right ← slice_from (right_half secret) start
    ok (interleave (sha1 left) (sha1 right))

  -- the proof that the server expects of the client, M1
  unfoldable pub expected_proof : List ℕ → List ℕ → List ℕ → List ℕ → List ℕ → List ℕ
  unfolding xor_bytes
  expected_proof identity_hash salt a_pub b_pub session_key =
      let hn_xor_hg = xor_bytes (sha1 (to_bytes_le n)) (sha1 (to_bytes_le g)) in
      sha1 (hn_xor_hg ++ (identity_hash ++ (salt ++ (a_pub ++ (b_pub ++ session_key)))))

  unfoldable pub premaster_secret : WowSrpServer → List ℕ → ℕ
  premaster_secret server a_pub =
      let u = from_bytes_le (sha1 (a_pub ++ server.b_pub)) in
      modpow (from_bytes_le a_pub * modpow (from_bytes_le server.verifier) u n)
        (from_bytes_be server.b) n

  unfoldable pub verify_challenge_response :
      WowSrpServer → List ℕ → List ℕ → Outcome Never (Option (List ℕ))
  unfolding expect_size
  verify_challenge_response server a_pub client_m =
      let verified : Outcome Never (Option (List ℕ)) = do
        secret ← expect_size 32 (to_bytes_le (premaster_secret server a_pub))
        session_key ← derive_session_key secret
        let server_m =
            expected_proof server.identity_hash server.salt a_pub server.b_pub session_key
        ok (if bytes_eq server_m client_m then some session_key else none)
      in if from_bytes_le a_pub % n == 0 then ok none else verified
