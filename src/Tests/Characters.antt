-- ===== src/Tests/Characters.antt =====
-- The character service over concrete tables.
use azerust.Prelude.{ℕ, List, [], ◌∷◌}
use mathlib.Core.List.{reverse}
use azerust.Prelude.Text.{codes}
use azerust.Game.Characters.{Character, CharacterCreate, AccountDataCache}
use azerust.MysqlCharacters.{Db, create_character}

abbrev create : CharacterCreate
create = record {
  name = codes "Thrall";
  race = 2;
  class = 7;
  gender = 0;
  skin_color = 1;
  face = 2;
  hair_style = 3;
  hair_color = 4;
  facial_style = 5;
  zone = 14;
  map_id = 1;
  position_x = 0;
  position_y = 0;
  position_z = 0;
}

abbrev pub thrall : Character
thrall = record {
  id = 77;
  account = 1;
  name = codes "Thrall";
  level = 1;
  race = 2;
  class = 7;
  gender = 0;
  skin_color = 1;
  face = 2;
  hair_style = 3;
  hair_color = 4;
  facial_style = 5;
  zone = 14;
  map_id = 1;
  position_x = 0;
  position_y = 0;
  position_z = 0;
}

abbrev blob : ℕ → AccountDataCache
blob t = record { time = t; bytes = t ∷ [] }

abbrev pub tables : Db
tables = record {
  characters = thrall ∷ record thrall { id = 78; account = 2 } ∷ [];
  account_data =
      record { account_id = 1; kind = 3; cache = blob 5 }
      ∷ record { account_id = 2; kind = 3; cache = blob 6 }
      ∷ [];
  arrange = reverse;
  faults = [];
  draws = λ i. 90;
  drawn = 0;
}

abbrev created : Db
created = (create_character 2 create tables).1
