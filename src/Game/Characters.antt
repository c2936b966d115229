-- ===== src/Game/Characters.antt =====
-- crates/game/src/characters.rs: characters and the service over them. A float is its 32 bits.
use azerust.Prelude.{ℕ, List, [], ◌∷◌, Bool, Option}
use azerust.Prelude.Exec.{Exec}

pub record Character : Type 0 where
  pub id : ℕ
  pub account : ℕ
  pub name : List ℕ
  pub level : ℕ
  pub race : ℕ
  pub class : ℕ
  pub gender : ℕ
  pub skin_color : ℕ
  pub face : ℕ
  pub hair_style : ℕ
  pub hair_color : ℕ
  pub facial_style : ℕ
  pub zone : ℕ
  pub map_id : ℕ
  pub position_x : ℕ
  pub position_y : ℕ
  pub position_z : ℕ

pub record CharacterCreate : Type 0 where
  pub name : List ℕ
  pub race : ℕ
  pub class : ℕ
  pub gender : ℕ
  pub skin_color : ℕ
  pub face : ℕ
  pub hair_style : ℕ
  pub hair_color : ℕ
  pub facial_style : ℕ
  pub zone : ℕ
  pub map_id : ℕ
  pub position_x : ℕ
  pub position_y : ℕ
  pub position_z : ℕ

pub record AccountDataCache : Type 0 where
  pub time : ℕ
  pub bytes : List ℕ

pub record DualDataCache : Type 0 where
  pub global : Option AccountDataCache
  pub per_char : Option AccountDataCache

pub record AccountData : Type 0 where
  pub config : DualDataCache
  pub bindings : DualDataCache
  pub macros : DualDataCache
  pub per_char_layout : Option AccountDataCache
  pub per_char_chat : Option AccountDataCache

-- The eight blobs, by their type number.
unfoldable pub items : AccountData → List (Option AccountDataCache)
items d =
    d.config.global ∷ d.config.per_char ∷ d.bindings.global ∷ d.bindings.per_char ∷ d.macros.global
    ∷ d.macros.per_char ∷ d.per_char_layout ∷ d.per_char_chat ∷ []

-- The text of a persistence error is left out.
pub data CharacterServiceError : Type 0 where
  no_such_account no_such_character : ℕ → CharacterServiceError
  persist_error : CharacterServiceError

-- The trait, over the state `S` of the service that implements it.
pub record CharacterService (S : Type 0) : Type 0 where
  pub get : ℕ → Exec S CharacterServiceError Character
  pub get_by_account : ℕ → Exec S CharacterServiceError (List Character)
  pub account_data : ℕ → Exec S CharacterServiceError AccountData
  pub count_by_account : ℕ → Exec S CharacterServiceError ℕ
  pub name_available : List ℕ → Exec S CharacterServiceError Bool
  pub create_character : ℕ → CharacterCreate → Exec S CharacterServiceError (Unit {0})
  pub delete_character : ℕ → Exec S CharacterServiceError (Unit {0})
