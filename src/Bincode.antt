-- ===== src/Bincode.antt =====
-- The crate `bincode` as the servers configure it (services/auth/src/wow_bincode.rs and
-- services/world/src/wow_bincode.rs): `DefaultOptions`, integers of fixed width, strings that end
-- in a zero byte. The encodings are the crate's, with their documented behaviour; the order of the
-- fields of a message is the source's.
use azerust.Prelude.{
  ℕ, zero, suc, ◌<◌, ◌≡◌, ◌≢◌, Option, some, none, Bool, true, false, List, [], ◌∷◌, ◌++◌, length,
  All, le_bytes, le_value, if◌then◌else◌,
}
use azerust.Prelude.Utf8.{is_utf8}

pub record Bincode : Type 0 where
  -- an unsigned integer of `w` bytes, little endian
  pub put_int : ℕ → ℕ → List ℕ
  pub put_int_lem : (w n : ℕ) → put_int w n ≡ le_bytes w n
  pub get_int : ℕ → List ℕ → Option (ℕ × List ℕ)
  pub get_int_lem :
      (w : ℕ) (bs rest : List ℕ) → length bs ≡ w → get_int w (bs ++ rest) ≡ some (le_value bs, rest)
  pub get_int_short : (w : ℕ) (bs : List ℕ) → length bs < w → get_int w bs ≡ none
  -- a string: its bytes and a zero
  pub put_str : List ℕ → List ℕ
  pub put_str_lem : (s : List ℕ) → put_str s ≡ s ++ 0 ∷ []
  pub get_str : List ℕ → Option (List ℕ × List ℕ)
  pub get_str_lem :
      (s rest : List ℕ)
      → All (λ b. b ≢ 0) s
      → is_utf8 s ≡ true
      → get_str (s ++ 0 ∷ rest) ≡ some (s, rest)
  -- the length of a sequence, with the varint encoding
  pub put_len : ℕ → List ℕ
  pub put_len_small : (n : ℕ) → n < 251 → put_len n ≡ n ∷ []
  -- `deserialize` of these options refuses bytes that are left over
  pub accepts_rest : List ℕ → Bool
  pub accepts_rest_lem : (bs : List ℕ) → accepts_rest bs ≡ (elim bs [ [] ↦ true | _ ∷ _ ↦ false ])

-- A deserializer of a value from the front of the bytes.
abbrev pub Reader : Type 0 → Type 0
Reader A = List ℕ → Option (A × List ℕ)

infixl 5 ◌>>=◌
abbrev pub ◌>>=◌ : {A B : Type 0} → Reader A → (A → Reader B) → Reader B
◌>>=◌ m f bs = elim (m bs) [ none ↦ none | some (a, rest) ↦ f a rest ]

abbrev pub done : {A : Type 0} → A → Reader A
done a bs = some (a, bs)

module _ (e : Bincode) where
  open e use {get_int, accepts_rest}

  -- [u8; k]
  unfoldable pub get_array : ℕ → Reader (List ℕ)
  get_array zero = done []
  get_array (suc k) = do b ← get_int 1; bs ← get_array k; done (b ∷ bs)

  unfoldable pub finish : {A : Type 0} → Option (A × List ℕ) → Option A
  finish none = none
  finish (some (a, rest)) = if accepts_rest rest then some a else none

  unfoldable pub deserialize : {A : Type 0} → Reader A → List ℕ → Option A
  unfolding finish
  deserialize r bs = finish (r bs)
