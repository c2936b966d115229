-- ===== src/Crypto.antt =====
-- The crates `sha1` and `num-bigint`, which crates/wow-srp and the two servers call: operations
-- with their documented behaviour. A `BigUint` is a natural number and its operators are those of ℕ.
use azerust.Prelude.{ℕ, ◌-◌, ◌^◌, ◌%◌, ◌≤◌, ◌<◌, ◌≡◌, List, [], ◌∷◌, length, All, IsByte}
use azerust.Prelude.{le_value}
use mathlib.Core.List.{reverse}

pub record Crypto : Type 0 where
  -- the digest of all that `update` was given, in order
  pub sha1 : List ℕ → List ℕ
  pub length-sha1 : (m : List ℕ) → length (sha1 m) ≡ 20
  pub sha1-IsByte : (m : List ℕ) → All IsByte (sha1 m)
  pub from_bytes_le : List ℕ → ℕ
  pub from_bytes_le_lem : (bs : List ℕ) → from_bytes_le bs ≡ le_value bs
  pub from_bytes_be : List ℕ → ℕ
  pub from_bytes_be_lem : (bs : List ℕ) → from_bytes_be bs ≡ le_value (reverse bs)
  pub to_bytes_le : ℕ → List ℕ
  pub le_value-to_bytes_le : (n : ℕ) → le_value (to_bytes_le n) ≡ n
  pub to_bytes_le-IsByte : (n : ℕ) → All IsByte (to_bytes_le n)
  -- the shortest encoding, which is one byte for 0
  pub to_bytes_le-zero : to_bytes_le 0 ≡ 0 ∷ []
  pub to_bytes_le_shortest : (n : ℕ) → 0 < n → 256 ^ (length (to_bytes_le n) - 1) ≤ n
  pub modpow : ℕ → ℕ → ℕ → ℕ
  pub modpow_lem : (b e m : ℕ) → 0 < m → modpow b e m ≡ b ^ e % m
