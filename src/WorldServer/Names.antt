-- ===== src/WorldServer/Names.antt =====
-- `handle_packet` of services/world/src/world/world.rs: the names that a character may have. A name is
-- its UTF-8 bytes; no byte of a character beyond ASCII is a letter.
use azerust.Prelude.{
  ℕ, ◌+◌, ◌-◌, ◌≡◌, ◌↔◌, ◌==◌, refl, ap, Option, some, none, Bool, true, false, not, ◌&&◌, List, [],
  ◌∷◌, map, length, leb, ltb, bytes_eq, if◌then◌else◌, All, arith,
}
use azerust.Protocol.World.{
  ResponseCode, char_create_success, char_create_name_in_use, char_name_failure, char_name_no_name,
  char_name_too_short,
}

abbrev pub is_upper : ℕ → Bool
is_upper c = leb b'A' c && leb c b'Z'

abbrev pub is_lower : ℕ → Bool
is_lower c = leb b'a' c && leb c b'z'

-- `to_ascii_lowercase`
unfoldable pub ascii_lowercase : List ℕ → List ℕ
ascii_lowercase = map (λ c. if is_upper c then c + 32 else c)

-- `get_mut(0..1)` and `make_ascii_uppercase`
unfoldable pub capitalize : List ℕ → List ℕ
capitalize [] = []
capitalize (c ∷ cs) = (if is_lower c then c - 32 else c) ∷ cs

unfoldable pub proper : List ℕ → List ℕ
unfolding ascii_lowercase capitalize
proper name = capitalize (ascii_lowercase name)

unfoldable pub name_problem : List ℕ → Option ResponseCode
unfolding proper
name_problem name =
    if not (bytes_eq (proper name) name)
    then some char_name_failure
    else if length name == 0
    then some char_name_no_name
    else if ltb (length name) 2
    then some char_name_too_short
    else none

-- the answer to a request for a new character, given whether the name is available
unfoldable pub answer : Bool → List ℕ → ResponseCode
unfolding name_problem
answer false name = char_create_name_in_use
answer true name = elim (name_problem name) [ none ↦ char_create_success | some code ↦ code ]

-- The names that are meant: two bytes or more, no small letter at the front, no capital behind it.
abbrev pub IsProper : List ℕ → Type 0
IsProper [] = ⊥
IsProper (c ∷ []) = ⊥
IsProper (c ∷ d ∷ cs) = (is_lower c ≡ false) × All (λ x. is_upper x ≡ false) (d ∷ cs)

lowered : (xs : List ℕ) → bytes_eq (ascii_lowercase xs) xs ≡ true → All (λ x. is_upper x ≡ false) xs
unfolding ascii_lowercase bytes_eq
lowered [] h = tt
lowered (x ∷ xs) h = ground (arith, lowered xs)

lowered_back :
    (xs : List ℕ) → All (λ x. is_upper x ≡ false) xs → bytes_eq (ascii_lowercase xs) xs ≡ true
unfolding ascii_lowercase bytes_eq
lowered_back [] h = refl
lowered_back (x ∷ xs) (hx, h) = rw (hx, lowered_back xs h) (ground arith)

front_lem :
    (c : ℕ)
    → ((if is_lower (if is_upper c then c + 32 else c)
          then (if is_upper c then c + 32 else c) - 32
          else (if is_upper c then c + 32 else c))
        == c)
      ≡ not (is_lower c)
front_lem c = ground arith

proper_same :
    (c : ℕ) (cs : List ℕ)
    → bytes_eq (proper (c ∷ cs)) (c ∷ cs) ≡ (not (is_lower c) && bytes_eq (ascii_lowercase cs) cs)
unfolding proper capitalize ascii_lowercase bytes_eq
proper_same c cs = ap (λ b. b && bytes_eq (ascii_lowercase cs) cs) (front_lem c)

name_problem-none : (name : List ℕ) → name_problem name ≡ none → IsProper name
unfolding name_problem
name_problem-none [] h = ground (arith, h)
name_problem-none (c ∷ []) h = ground (arith, proper_same c [])
name_problem-none (c ∷ d ∷ cs) h = ground (arith, proper_same c (d ∷ cs), lowered (d ∷ cs))

IsProper-name_problem : (name : List ℕ) → IsProper name → name_problem name ≡ none
unfolding name_problem
IsProper-name_problem [] h = absurd h
IsProper-name_problem (c ∷ []) h = absurd h
IsProper-name_problem (c ∷ d ∷ cs) (fine, behind) =
    rw (proper_same c (d ∷ cs), fine, lowered_back (d ∷ cs) behind) (ground arith)

granted : (name : List ℕ) → answer true name ≡ char_create_success → name_problem name ≡ none
unfolding answer name_problem
granted name h = ground arith

pub answer_fine :
    (name : List ℕ) → name_problem name ≡ none → answer true name ≡ char_create_success
unfolding answer name_problem
answer_fine name h = ground arith

pub answer_wrong :
    (name : List ℕ) (code : ResponseCode) → name_problem name ≡ some code → answer true name ≡ code
unfolding answer name_problem
answer_wrong name code h = ground arith

pub answer_used : (name : List ℕ) → answer false name ≡ char_create_name_in_use
unfolding answer
answer_used name = refl

-- A new character is granted exactly when its name is available and proper: two bytes or more, the
-- first no small letter, and no capital among the others.
pub answer-success :
    (available : Bool) (name : List ℕ)
    → (answer available name ≡ char_create_success) ↔ ((available ≡ true) × IsProper name)
unfolding answer
answer-success false name = (λ h. cc, λ h. cc)
answer-success true name = (
  λ h. (refl, name_problem-none name (granted name h)),
  λ h. answer_fine name (IsProper-name_problem name h.1),
)
