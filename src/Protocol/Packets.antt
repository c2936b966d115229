-- ===== src/Protocol/Packets.antt =====
-- crates/protocol/src/lib.rs: the packets of the world server. A user name is its UTF-8 bytes.
use azerust.Prelude.{ℕ, Bool, List}
use azerust.Game.Characters.{Character, AccountData}
use azerust.Protocol.World.{ResponseCode}

pub data ClientVersion : Type 0 where
  classic burning_crusade wotlk : ClientVersion

unfoldable pub client_version_code : ClientVersion → ℕ
client_version_code classic = 0
client_version_code burning_crusade = 1
client_version_code wotlk = 2

pub record Addon : Type 0 where
  pub name : List ℕ
  pub signature : Bool
  pub crc : ℕ
  pub crc2 : ℕ

pub record AuthSession : Type 0 where
  pub build : ℕ
  pub server_id : ℕ
  pub username : List ℕ
  pub login_server_type : ℕ
  pub region_id : ℕ
  pub local_challenge : List ℕ
  pub client_proof : List ℕ
  pub addons : List Addon
  pub battlegroup_id : ℕ
  pub realm_id : ℕ
  pub dos_response : ℕ

-- The fields of `ClientPacket::CharacterCreate`.
pub record NewCharacter : Type 0 where
  pub name : List ℕ
  pub race : ℕ
  pub class : ℕ
  pub gender : ℕ
  pub skin_color : ℕ
  pub face : ℕ
  pub hair_style : ℕ
  pub hair_color : ℕ
  pub facial_style : ℕ

pub data ClientPacket : Type 0 where
  auth_session : AuthSession → ClientPacket
  keep_alive : ClientPacket
  -- the sequence number and the latency
  ping : ℕ → ℕ → ClientPacket
  ready_for_account_data_times : ClientPacket
  char_enum : ClientPacket
  realm_split : ℕ → ClientPacket
  character_create : NewCharacter → ClientPacket
  player_login : ℕ → ClientPacket
  character_delete : ℕ → ClientPacket

pub record Item : Type 0 where
  pub display : ℕ
  pub inventory : ℕ
  pub aura : ℕ

pub data ServerPacket : Type 0 where
  auth_response : ServerPacket
  addon_info : List Addon → ServerPacket
  client_cache_version : ℕ → ServerPacket
  tutorial_data : ServerPacket
  pong : ℕ → ServerPacket
  char_enum : List (Character × List Item) → ServerPacket
  account_data_times : AccountData → ServerPacket
  realm_split : ℕ → ServerPacket
  character_create : ResponseCode → ServerPacket
  character_delete : ResponseCode → ServerPacket
