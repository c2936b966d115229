-- ===== src/Srp/Sizes.antt =====
-- The conversions of a `BigUint` to an array of 32 bytes: when they succeed and what they hold.
use azerust.Prelude.{
  ℕ, zero, suc, ap, ◌+◌, ◌*◌, ◌-◌, ◌%◌, ◌^◌, ◌≤◌, ◌<◌, ◌≡◌, inl, inr, List, Bool-cases, ==_iff,
  length, leb, leb→le, ◌==◌, arith, le_value, le_value-lt, if◌then◌else◌,
}
use azerust.Prelude.Outcome.{Outcome, Never, ok, panic}
use azerust.Crypto.{Crypto}
use azerust.Srp.{expect_size, g, n, n_bytes, from_credentials, credentials_hash, calculate_b_pub}
use native.Mathlib.Decide.{dec_le}
use native.Mathlib.Nat.{pow-le-pow_right}

-- The modulus as a number.
abbrev pub modulus : ℕ
modulus = 0x894B645E89E1535BBDAD5B8B29065053_0801B18EBFBF5E8FAB3C82872A3E9BB7

module _ (c : Crypto) where
  open c use {to_bytes_le, from_bytes_le, from_bytes_be, modpow}

  pub n-eq-modulus : n c ≡ modulus
  n-eq-modulus = c.from_bytes_be_lem n_bytes

  pub g-eq-seven : g c ≡ 7
  g-eq-seven = c.from_bytes_be_lem _

  -- A number takes exactly 32 bytes when it lies in [256 ^ 31, 256 ^ 32).
  length-to_bytes_le : (x : ℕ) → 256 ^ 31 ≤ x → x < 256 ^ 32 → length (to_bytes_le x) ≡ 32
  length-to_bytes_le x lo hi = elim (dec_le (length (to_bytes_le x)) 31) [
    | yes short ↦ absurd (omega (arith, below, pow-le-pow_right {n = 256} (omega arith) short))
    | no long ↦ elim (dec_le (length (to_bytes_le x)) 32) [
      | yes fits ↦ omega arith
      | no longer ↦ absurd (
          omega (
            arith,
            c.to_bytes_le_shortest x (omega arith),
            pow-le-pow_right {n = 256} (omega arith) {i = 32} {j = length (to_bytes_le x) - 1}
                (omega arith),
          ))
    ]
  ]
    where
      below : x < 256 ^ length (to_bytes_le x)
      below = rw c.le_value-to_bytes_le at (le_value-lt (to_bytes_le x) (c.to_bytes_le-IsByte x))

  length-to_bytes_le_small : (x : ℕ) → length (to_bytes_le x) ≡ 32 → 256 ^ 31 ≤ x
  length-to_bytes_le_small zero e = absurd (omega (arith, ap length c.to_bytes_le-zero))
  length-to_bytes_le_small (suc x) e = rw e at (c.to_bytes_le_shortest (suc x) (omega arith))

  -- The conversion to 32 bytes, of a number below the modulus: it holds the number, or panics.
  expect_size_large :
      (x : ℕ) → 256 ^ 31 ≤ x → x < 256 ^ 32 → expect_size 32 (to_bytes_le x) ≡ ok (to_bytes_le x)
  unfolding expect_size
  expect_size_large x lo hi = rw (length-to_bytes_le x lo hi)

  expect_size_small : (x : ℕ) → x < 256 ^ 31 → expect_size 32 (to_bytes_le x) ≡ panic
  unfolding expect_size
  expect_size_small x hi = elim (Bool-cases (length (to_bytes_le x) == 32)) [
    | inl same ↦ absurd (omega (arith, length-to_bytes_le_small x ((==_iff _ 32).0 same)))
    | inr differs ↦ rw differs
  ]

  -- The conversion of a number modulo `n`: its bytes, or a panic where they are fewer than 32.
  abbrev pub sized : ℕ → Outcome Never (List ℕ)
  sized value = if leb (256 ^ 31) value then ok (to_bytes_le value) else panic

  pub expect_size-mod : (x : ℕ) → expect_size 32 (to_bytes_le (x % modulus)) ≡ sized (x % modulus)
  expect_size-mod x = elim (Bool-cases (leb (256 ^ 31) (x % modulus))) [
    | inl large ↦ rw (large, expect_size_large (x % modulus) (leb→le _ _ large) (omega arith))
    | inr small ↦ rw (small, expect_size_small (x % modulus) (ground arith))
  ]

  pub modpow-n : (b e : ℕ) → modpow b e (n c) ≡ b ^ e % modulus
  modpow-n b e = rw n-eq-modulus (c.modpow_lem b e modulus (omega arith))

  -- Registration computes the bytes of 7 ^ x % N, x the hash of the credentials and the salt, when
  -- that number is at least 256 ^ 31, and panics on any smaller one.
  pub from_credentials_lem :
      (username password salt : List ℕ)
      → from_credentials c username password salt
        ≡ sized (7 ^ credentials_hash c username password salt % modulus)
  unfolding from_credentials
  from_credentials_lem username password salt = rw (modpow-n, g-eq-seven) (expect_size-mod _)

  -- The public key of the server is the bytes of (7 ^ b + 3 v) % N when that number is at least
  -- 256 ^ 31, and a panic on any smaller one.
  pub calculate_b_pub_lem :
      (b v : List ℕ)
      → calculate_b_pub c b v
        ≡ sized ((7 ^ from_bytes_be b % modulus + from_bytes_le v * 3) % modulus)
  unfolding calculate_b_pub
  calculate_b_pub_lem b v = rw (modpow-n, g-eq-seven, n-eq-modulus) (expect_size-mod _)

  -- What a conversion that returned holds: 32 bytes, of that value.
  pub sized_ok :
      (value : ℕ) (bytes : List ℕ)
      → value < modulus
      → sized value ≡ ok bytes
      → (length bytes ≡ 32) × (le_value bytes ≡ value) × (256 ^ 31 ≤ value)
  sized_ok value bytes h e = elim (Bool-cases (leb (256 ^ 31) value)) [
    | inl large ↦
        let lo : 256 ^ 31 ≤ value = leb→le _ _ large in
        let same : bytes ≡ to_bytes_le value = cc (rw large at e) in
        rw same (length-to_bytes_le value lo (omega arith), c.le_value-to_bytes_le value, lo)
    | inr small ↦ cc (rw small at e)
  ]
