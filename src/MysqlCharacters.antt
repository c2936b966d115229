-- ===== src/MysqlCharacters.antt =====
-- crates/mysql-characters/src/characters.rs: each method of `MySQLCharacterService`, its SQL statements
-- as functions of the tables. A statement may fail: `faults` says which of the coming ones do. A table
-- is kept as a list; its order reaches a caller through `arrange` only, since the other queries count
-- rows or look them up by their keys.
pub mod Roster
pub mod Blobs
use azerust.Prelude.{
  ℕ, zero, suc, ◌≡◌, ap, Option, some, none, Bool, true, false, not, ◌&&◌, List, [], ◌∷◌, ◌++◌, map,
  length, ◌==◌, if◌then◌else◌,
}
use azerust.Prelude.Outcome.{Outcome, ok, err, ok_or}
use azerust.Prelude.Exec.{Exec, pure, lift, gets, modify, ◌>>=◌}
use azerust.Game.Characters.{
  Character, CharacterCreate, AccountDataCache, DualDataCache, AccountData, CharacterServiceError,
  persist_error, CharacterService,
}
use azerust.Game.Ids.{player, wow_id}
use azerust.MysqlAuth.Db.{first_where, all_where}

pub record DataRow : Type 0 where
  pub account_id : ℕ
  pub kind : ℕ
  pub cache : AccountDataCache

pub record Db : Type 0 where
  pub characters : List Character
  pub account_data : List DataRow
  -- the order in which a SELECT without ORDER BY gives its rows, which the database is free to choose
  pub arrange : List Character → List Character
  pub faults : List Bool
  -- the random u32 numbers
  pub draws : ℕ → ℕ
  pub drawn : ℕ

attempt_with :
    {A : Type 0} → Exec Db CharacterServiceError A → List Bool → Exec Db CharacterServiceError A
attempt_with m [] s = m s
attempt_with m (true ∷ rest) s = (err persist_error, record s { faults = rest })
attempt_with m (false ∷ rest) s = m (record s { faults = rest })

-- A statement, whose failure becomes a persistence error.
attempt : {A : Type 0} → Exec Db CharacterServiceError A → Exec Db CharacterServiceError A
unfolding attempt_with
attempt m s = attempt_with m s.faults s

attempt_up :
    {A : Type 0} (m : Exec Db CharacterServiceError A) (s : Db) → s.faults ≡ [] → attempt m s ≡ m s
unfolding attempt
attempt_up m s up = ap (λ faults. attempt_with m faults s) up

-- `HashMap<_, _>` of the blobs
abbrev Blobs : Type 0
Blobs = ℕ → Option AccountDataCache

abbrev insert : ℕ → AccountDataCache → Blobs → Blobs
insert k v m j = if k == j then some v else m j

-- `HashMap::remove`: the value and the map that is left
abbrev remove : ℕ → Blobs → Option AccountDataCache × Blobs
remove k m = (m k, λ j. if k == j then none else m j)

collect : List DataRow → Blobs → Blobs
collect [] m = m
collect (r ∷ rest) m = collect rest (insert r.kind r.cache m)

-- the eight calls of `remove`, in the order of the fields
account_data_of : Blobs → AccountData
account_data_of rows =
    let (config_global, rows1) = remove 0 rows in
    let (config_per_char, rows2) = remove 1 rows1 in
    let (bindings_global, rows3) = remove 2 rows2 in
    let (bindings_per_char, rows4) = remove 3 rows3 in
    let (macros_global, rows5) = remove 4 rows4 in
    let (macros_per_char, rows6) = remove 5 rows5 in
    let (per_char_layout, rows7) = remove 6 rows6 in
    let (per_char_chat, rows8) = remove 7 rows7 in
    record {
      config = record { global = config_global; per_char = config_per_char };
      bindings = record { global = bindings_global; per_char = bindings_per_char };
      macros = record { global = macros_global; per_char = macros_per_char };
      per_char_layout = per_char_layout;
      per_char_chat = per_char_chat;
    }

unfoldable pub account_data : ℕ → Exec Db CharacterServiceError AccountData
unfolding collect account_data_of attempt
account_data id = do
  rows ← attempt (gets (λ s. all_where (λ (r : DataRow). r.account_id == id) s.account_data))
  pure (account_data_of (collect rows (λ j. none)))

unfoldable pub get : ℕ → Exec Db CharacterServiceError Character
unfolding attempt
get id = do
  found ← attempt (gets (λ s. first_where (λ (r : Character). r.id == id) s.characters))
  lift (ok_or found persist_error)

unfoldable pub get_by_account : ℕ → Exec Db CharacterServiceError (List Character)
unfolding attempt
get_by_account id =
    attempt (gets (λ s. s.arrange (all_where (λ (r : Character). r.account == id) s.characters)))

unfoldable pub count_by_account : ℕ → Exec Db CharacterServiceError ℕ
unfolding attempt
count_by_account id =
    attempt (gets (λ s. length (all_where (λ (r : Character). r.account == id) s.characters)))

-- the row of an INSERT; the columns that `Character` has not are empty texts
unfoldable pub character_of : ℕ → ℕ → CharacterCreate → Character
character_of account id create = record {
  id = id;
  account = account;
  name = create.name;
  level = 1;
  race = create.race;
  class = create.class;
  gender = create.gender;
  skin_color = create.skin_color;
  face = create.face;
  hair_style = create.hair_style;
  hair_color = create.hair_color;
  facial_style = create.facial_style;
  zone = create.zone;
  map_id = create.map_id;
  position_x = create.position_x;
  position_y = create.position_y;
  position_z = create.position_z;
}

draw : Exec Db CharacterServiceError ℕ
draw s = (ok (s.draws s.drawn), record s { drawn = suc s.drawn })

unfoldable pub create_character : ℕ → CharacterCreate → Exec Db CharacterServiceError (Unit {0})
unfolding character_of draw attempt
create_character account create = do
  low ← draw
  attempt (
      modify λ s. record s {
        characters = s.characters ++ character_of account (wow_id player low 0) create ∷ [];
      })

unfoldable pub delete_character : ℕ → Exec Db CharacterServiceError (Unit {0})
unfolding attempt
delete_character id = attempt (
    modify
      λ s. record s { characters = all_where (λ (r : Character). not (r.id == id)) s.characters })

-- How the database compares texts is an argument.
module _ (same_text : List ℕ → List ℕ → Bool) where
  unfoldable pub name_available : List ℕ → Exec Db CharacterServiceError Bool
  unfolding attempt
  name_available name =
      attempt (
        gets (λ s. length (all_where (λ (r : Character). same_text r.name name) s.characters) == 0))

  -- `MySQLCharacterService` implements the trait.
  abbrev pub service : CharacterService Db
  service = record {
    get = get;
    get_by_account = get_by_account;
    account_data = account_data;
    count_by_account = count_by_account;
    name_available = name_available;
    create_character = create_character;
    delete_character = delete_character;
  }
