-- ===== src/Game/Ids.antt =====
-- `WowId` of crates/game/src/lib.rs and `CharacterId` of crates/game/src/characters.rs. Both are
-- their 64-bit numbers.
use azerust.Prelude.{ℕ, ◌*◌, ◌/◌, ◌%◌, ◌^◌, ◌==◌, if◌then◌else◌}
use azerust.Prelude.Outcome.{Outcome, ok, err}
use Prim.Native.Nat.{bit_or}

pub data EntityType : Type 0 where
  player item_or_container game_object transport unit pet vehicle : EntityType
  dynamic_object corpse mo_transport group instance_map : EntityType

unfoldable pub entity_code : EntityType → ℕ
entity_code player = 0x0000
entity_code item_or_container = 0x4000
entity_code game_object = 0xF110
entity_code transport = 0xF120
entity_code unit = 0xF130
entity_code pet = 0xF140
entity_code vehicle = 0xF150
entity_code dynamic_object = 0xF100
entity_code corpse = 0xF101
entity_code mo_transport = 0x1FC0
entity_code group = 0x1F50
entity_code instance_map = 0x1F42

-- `(low as u64) | ((mid as u64) << 24) | ((type as u64) << 48)`; no shift loses a bit.
unfoldable pub wow_id : EntityType → ℕ → ℕ → ℕ
unfolding entity_code
wow_id type low mid = bit_or (bit_or low (mid * 2 ^ 24)) (entity_code type * 2 ^ 48)

pub data TryFromWowIdError : Type 0 where
  invalid_entity_type : ℕ → TryFromWowIdError

unfoldable pub character_id_from : ℕ → Outcome TryFromWowIdError ℕ
character_id_from value =
    let e_type = value / 2 ^ 48 % 2 ^ 16 in
    if e_type == entity_code player then ok value else err (invalid_entity_type e_type)
