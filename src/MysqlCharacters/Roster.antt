-- ===== src/MysqlCharacters/Roster.antt =====
-- Creating and deleting characters, as the lists of the accounts show it.
use azerust.Prelude.{ℕ, suc, length, ◌≡◌, refl, Bool, not, List, [], ◌∷◌, ◌++◌, arith, ◌==◌}
use mathlib.Core.List.{Perm}
use mathlib.Core.List.Perm
use azerust.Prelude.Outcome.{ok}
use azerust.Game.Characters.{Character, CharacterCreate}
use azerust.Game.Ids.{player, wow_id}
use azerust.MysqlAuth.Db.{all_where}
use azerust.MysqlCharacters.{
  Db, attempt_up, draw, character_of, create_character, delete_character, name_available,
}

-- The tables behind a character that is created, and behind one that is deleted.
abbrev pub created : ℕ → CharacterCreate → Db → Db
created account create s = record s {
  drawn = suc s.drawn;
  characters = s.characters ++ character_of account (wow_id player (s.draws s.drawn) 0) create ∷ [];
}

abbrev pub deleted : ℕ → Db → Db
deleted id s = record s {
  characters = all_where (λ (r : Character). not (r.id == id)) s.characters;
}

pub name_available_up :
    (same_text : List ℕ → List ℕ → Bool) (name : List ℕ) (s : Db)
    → s.faults ≡ []
    → name_available same_text name s
      ≡ (ok (length (all_where (λ (r : Character). same_text r.name name) s.characters) == 0), s)
unfolding name_available
name_available_up same_text name s up = attempt_up _ s up

abbrev rows_of : ℕ → List Character → List Character
rows_of account = all_where (λ (r : Character). r.account == account)

pub create_character_up :
    (account : ℕ) (create : CharacterCreate) (s : Db)
    → s.faults ≡ []
    → create_character account create s ≡ (ok tt, created account create s)
unfolding create_character draw
create_character_up account create s up = attempt_up _ (record s { drawn = suc s.drawn }) up

pub delete_character_up :
    (id : ℕ) (s : Db) → s.faults ≡ [] → delete_character id s ≡ (ok tt, deleted id s)
unfolding delete_character
delete_character_up id s up = attempt_up _ s up

module _ {A : Type 0} where
  all_where_swap :
      (p q : A → Bool) (xs : List A) → all_where p (all_where q xs) ≡ all_where q (all_where p xs)
  unfolding all_where
  all_where_swap p q [] = refl
  all_where_swap p q (x ∷ xs) = ground (arith, all_where_swap p q xs)
