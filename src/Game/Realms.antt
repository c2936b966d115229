-- ===== src/Game/Realms.antt =====
-- crates/game/src/realms.rs: realms and the realm list. A `SystemTime` is a number of seconds, a
-- float its bits.
use azerust.Prelude.{ℕ, List}
use azerust.Prelude.Exec.{Exec}

pub data RealmFlags : Type 0 where
  invalid offline specify_build unknown1 unknown2 recommended new full : RealmFlags

-- `flag as u8`
unfoldable pub realm_flags_code : RealmFlags → ℕ
realm_flags_code invalid = 0b0000_0001
realm_flags_code offline = 0b0000_0010
realm_flags_code specify_build = 0b0000_0100
realm_flags_code unknown1 = 0b0000_1000
realm_flags_code unknown2 = 0b0001_0000
realm_flags_code recommended = 0b0010_0000
realm_flags_code new = 0b0100_0000
realm_flags_code full = 0b1000_0000

pub data RealmType : Type 0 where
  normal pvp rp rp_pvp : RealmType

unfoldable pub realm_type_code : RealmType → ℕ
realm_type_code normal = 0
realm_type_code pvp = 1
realm_type_code rp = 6
realm_type_code rp_pvp = 8

-- `RealmId(pub u32)` is its number.
pub record Realm : Type 0 where
  pub id : ℕ
  pub name : List ℕ
  pub realm_type : RealmType
  pub build : ℕ
  pub external_address : List ℕ
  pub local_address : List ℕ
  pub local_subnet_mask : List ℕ
  pub port : ℕ
  pub flags : ℕ
  pub timezone : ℕ
  pub population : ℕ

-- The text of a persistence error is left out.
pub data RealmListError : Type 0 where
  start_time_in_future start_time_too_large persist_error : RealmListError

-- The trait, over the state `S` of the service that implements it.
pub record RealmList (S : Type 0) : Type 0 where
  pub realms : S → List Realm × S
  pub update_status : List (ℕ × RealmFlags) → Exec S RealmListError (Unit {0})
  -- the realm, the start of the server and its population
  pub set_uptime : ℕ → ℕ → ℕ → Exec S RealmListError (Unit {0})
