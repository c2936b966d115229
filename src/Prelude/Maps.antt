-- ===== src/Prelude/Maps.antt =====
-- A `HashMap` with numbers for keys, as a list of its entries.
use Prim.Native.Nat.{ℕ}
use mathlib.Core.Path.{◌≡◌, refl, sym, ap, ◌∙◌}
use mathlib.Core.Bool.{false}
use mathlib.Core.Logic.{inl, inr}
use mathlib.Core.Option
use mathlib.Core.Option.{Option, none, some}
use mathlib.Core.List.{List, [], ◌∷◌}
use native.Mathlib.Omega.{arith}
use azerust.Prelude.Tests.{◌==◌, Bool-cases, ==_iff, if◌then◌else◌}

module _ {A : Type 0} where
  -- `get`
  unfoldable pub find : ℕ → List (ℕ × A) → Option A
  find k [] = none
  find k ((j, a) ∷ rest) = let more = find k rest in if j == k then some a else more

  -- `insert`
  unfoldable pub insert : ℕ → A → List (ℕ × A) → List (ℕ × A)
  insert k a [] = (k, a) ∷ []
  insert k a ((j, b) ∷ rest) =
      let more = insert k a rest in if j == k then (k, a) ∷ rest else (j, b) ∷ more

  -- `remove`
  unfoldable pub remove : ℕ → List (ℕ × A) → List (ℕ × A)
  remove k [] = []
  remove k ((j, b) ∷ rest) = let more = remove k rest in if j == k then more else (j, b) ∷ more

  pub find-insert :
      (j k : ℕ) (a : A) (m : List (ℕ × A))
      → find j (insert k a m) ≡ (if k == j then some a else find j m)
  unfolding find insert
  find-insert j k a [] = refl
  find-insert j k a ((i, b) ∷ rest) = ground (arith, find-insert j k a rest)

  pub find-remove :
      (j k : ℕ) (m : List (ℕ × A)) → find j (remove k m) ≡ (if k == j then none else find j m)
  unfolding find remove
  find-remove j k [] = ground arith
  find-remove j k ((i, b) ∷ rest) = ground (arith, find-remove j k rest)

  pub find-insert_other :
      (j k : ℕ) (a : A) (m : List (ℕ × A)) → (k == j) ≡ false → find j (insert k a m) ≡ find j m
  find-insert_other j k a m other = find-insert j k a m ∙ rw other refl

  pub find-insert_same : (k : ℕ) (a : A) (m : List (ℕ × A)) → find k (insert k a m) ≡ some a
  find-insert_same k a m = find-insert k k a m ∙ ground arith

  -- an entry in place of one that looks the same to `f`
  pub map-insert_same :
      {B : Type 0} (f : A → B) (j k : ℕ) (a b : A) (m : List (ℕ × A))
      → find k m ≡ some a
      → f b ≡ f a
      → Option.map f (find j (insert k b m)) ≡ Option.map f (find j m)
  map-insert_same f j k a b m there same = elim (Bool-cases (k == j)) [
    | inl here ↦
        let eq : k ≡ j = (==_iff k j).0 here in
        let found : find j (insert k b m) ≡ some b = find-insert j k b m ∙ rw here refl in
        ap (Option.map f) found
        ∙ ap some same
        ∙ ap (Option.map f) (sym there ∙ ap (λ i. find i m) eq)
    | inr other ↦ ap (Option.map f) (find-insert_other j k b m other)
  ]
