-- ===== src/Srp/SessionKey.antt =====
-- `derive_session_key`: it never panics on 32 bytes, and its start index.
use azerust.Prelude.{
  ℕ, zero, suc, ◌+◌, ◌*◌, ◌/◌, ◌≤◌, ◌≡◌, refl, ap, ◌∙◌, List, [], ◌∷◌, length, drop, arith, ◌==◌,
  if◌then◌else◌, le→leb,
}
use azerust.Prelude.Outcome.{ok}
use native.Mathlib.Nat.{zero-add}
use azerust.Crypto.{Crypto}
use azerust.Srp.{
  slice_from, left_half, right_half, find_nonzero, start_index, after_zeros, interleave,
  derive_session_key,
}

-- How many pairs of bytes are left out: those of two zeros in front, and the pair behind them where
-- it begins with a zero.
unfoldable pub zero_pairs : List ℕ → ℕ
zero_pairs [] = 0
zero_pairs (a ∷ []) = 0
zero_pairs (a ∷ b ∷ rest) =
    let more = zero_pairs rest in if a == 0 then (if b == 0 then suc more else 1) else 0

start_from :
    (xs : List ℕ) (i len k : ℕ)
    → i ≡ k * 2
    → len ≡ i + length xs
    → after_zeros (find_nonzero xs i) len / 2 ≡ k + zero_pairs xs
unfolding find_nonzero zero_pairs after_zeros
start_from [] i len k hi hl = omega arith
start_from (a ∷ []) i len k hi hl = ground arith
start_from (a ∷ b ∷ rest) i len k hi hl = ground (arith, start_from rest (i + 1 + 1) len (suc k))

-- The start index is the number of pairs of bytes to leave out.
pub start_index-eq-zero_pairs : (secret : List ℕ) → start_index secret ≡ zero_pairs secret
unfolding start_index
start_index-eq-zero_pairs secret =
    start_from secret 0 (length secret) 0 refl (omega arith) ∙ zero-add _

zero_pairs-le : (xs : List ℕ) → zero_pairs xs * 2 ≤ length xs
unfolding zero_pairs
zero_pairs-le [] = omega arith
zero_pairs-le (a ∷ []) = omega arith
zero_pairs-le (a ∷ b ∷ rest) = ground (arith, zero_pairs-le rest)

halves_length :
    (xs : List ℕ) (k : ℕ)
    → length xs ≡ k * 2
    → (length (left_half xs) ≡ k) × (length (right_half xs) ≡ k)
unfolding left_half right_half
halves_length [] k h = omega arith
halves_length (a ∷ []) k h = absurd (omega arith)
halves_length (a ∷ b ∷ rest) zero h = absurd (omega arith)
halves_length (a ∷ b ∷ rest) (suc k) h = omega (arith, halves_length rest k (omega arith))

pub length-interleave :
    (xs ys : List ℕ) → length xs ≡ length ys → length (interleave xs ys) ≡ length xs + length ys
unfolding interleave
length-interleave [] [] h = refl
length-interleave [] (y ∷ ys) h = absurd (omega arith)
length-interleave (x ∷ xs) [] h = absurd (omega arith)
length-interleave (x ∷ xs) (y ∷ ys) h = omega (arith, length-interleave xs ys (omega arith))

pub left_half-interleave :
    (xs ys : List ℕ) → length xs ≡ length ys → left_half (interleave xs ys) ≡ xs
unfolding interleave left_half
left_half-interleave [] ys h = refl
left_half-interleave (x ∷ xs) [] h = absurd (omega arith)
left_half-interleave (x ∷ xs) (y ∷ ys) h =
    ap (λ r. x ∷ r) (left_half-interleave xs ys (omega arith))

pub right_half-interleave :
    (xs ys : List ℕ) → length xs ≡ length ys → right_half (interleave xs ys) ≡ ys
unfolding interleave right_half
right_half-interleave [] [] h = refl
right_half-interleave [] (y ∷ ys) h = absurd (omega arith)
right_half-interleave (x ∷ xs) [] h = absurd (omega arith)
right_half-interleave (x ∷ xs) (y ∷ ys) h =
    ap (λ r. y ∷ r) (right_half-interleave xs ys (omega arith))

slice_from_ok : (xs : List ℕ) (i : ℕ) → i ≤ length xs → slice_from xs i ≡ ok (drop i xs)
unfolding slice_from
slice_from_ok xs i h = rw (le→leb _ _ h)

module _ (c : Crypto) where
  open c use {sha1, length-sha1}

  -- On a secret of 32 bytes the derivation never panics. The key has 40 bytes; those at even places
  -- are the digest of the even bytes of the secret, and those at odd places of the odd bytes, both
  -- without the leading pairs that `zero_pairs` counts.
  pub derive_session_key_total :
      (secret : List ℕ)
      → length secret ≡ 32
      → (key : List ℕ) × (derive_session_key c secret ≡ ok key)
        × (length key ≡ 40)
        × (left_half key ≡ sha1 (drop (zero_pairs secret) (left_half secret)))
        × (right_half key ≡ sha1 (drop (zero_pairs secret) (right_half secret)))
  unfolding derive_session_key
  derive_session_key_total secret h =
      let (lengths, lengths') = halves_length secret 16 h in
      let fits : zero_pairs secret ≤ 16 = omega (arith, zero_pairs-le secret) in
      let left = sha1 (drop (zero_pairs secret) (left_half secret)) in
      let right = sha1 (drop (zero_pairs secret) (right_half secret)) in
      let same : length left ≡ length right = omega (arith, length-sha1 _, length-sha1 _) in
      (
        interleave left right,
        rw (
          start_index-eq-zero_pairs secret,
          slice_from_ok (left_half secret) (zero_pairs secret) (omega arith),
          slice_from_ok (right_half secret) (zero_pairs secret) (omega arith),
        ),
        omega (arith, length-interleave left right same, length-sha1),
        left_half-interleave left right same,
        right_half-interleave left right same,
      )
