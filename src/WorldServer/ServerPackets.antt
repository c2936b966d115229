-- ===== src/WorldServer/ServerPackets.antt =====
-- services/world/src/world/session.rs: the bytes of the packets that `send_packet` writes. A float is
-- its 32 bits.
use azerust.Prelude.{
  ℕ, ◌+◌, ◌-◌, ◌*◌, ◌/◌, ◌%◌, ◌^◌, Option, some, none, List, [], ◌∷◌, ◌++◌, length, replicate, ltb,
  leb, ◌==◌, if◌then◌else◌,
}
use azerust.Prelude.Text.{codes}
use azerust.Prelude.Outcome.{Outcome, ok, err}
use azerust.Bincode.{Bincode}
use azerust.Game.Characters.{Character, AccountDataCache, AccountData}
use azerust.Protocol.World.{
  OpCode, smsg_auth_response, smsg_addon_info, smsg_clientcache_version, smsg_tutorial_flags,
  smsg_pong, smsg_char_enum, smsg_account_data_times, smsg_realm_split, smsg_char_create,
  smsg_char_delete, auth_ok, response_code,
}
use azerust.Protocol.Packets.{
  Addon, Item, ServerPacket, auth_response, addon_info, client_cache_version, tutorial_data, pong,
  char_enum, account_data_times, realm_split, character_create, character_delete, wotlk,
  client_version_code,
}
use azerust.WorldServer.Socket.{WriteError}

abbrev pub global_cache_mask : ℕ
global_cache_mask = 0x15

-- The errors of the session and of the handlers of its packets, less their texts.
pub data SessionError : Type 0 where
  write_error : WriteError → SessionError
  clock_before_epoch no_account no_account_data no_character_list not_created : SessionError
  no_character invalid_guid : SessionError

-- `as u32` of a float: its whole part, 0 below that and for what is no number, the largest u32 above
unfoldable pub float_as_u32 : ℕ → ℕ
float_as_u32 bits =
    let exponent = bits / 2 ^ 23 % 256 in
    let fraction = bits % 2 ^ 23 in
    if leb (2 ^ 31) bits
    then 0
    else if ltb exponent 127
    then 0
    else if ltb exponent (127 + 32)
    then (2 ^ 23 + fraction) * 2 ^ (exponent - 127) / 2 ^ 23
    else if exponent == 255
    then (if fraction == 0 then 2 ^ 32 - 1 else 0)
    else 2 ^ 32 - 1

unfoldable pub addon_bytes : Addon → List ℕ
addon_bytes a = 2 ∷ 1 ∷ (if a.crc == 0x4C1C776D then 0 else 1) ∷ 0 ∷ 0 ∷ 0 ∷ 0 ∷ 0 ∷ []

unfoldable pub flat_map : {A : Type 0} → (A → List ℕ) → List A → List ℕ
flat_map f [] = []
flat_map f (x ∷ xs) = f x ++ flat_map f xs

time_of : Option AccountDataCache → ℕ
time_of none = 0
time_of (some c) = c.time

module _ (e : Bincode) where
  open e use {put_int, put_str}

  item_bytes : Item → List ℕ
  item_bytes i = put_int 4 i.display ++ (put_int 1 i.inventory ++ put_int 4 i.aura)

  -- a number of `w` bytes for each of a list
  unfoldable pub ints : ℕ → List ℕ → List ℕ
  unfolding flat_map
  ints w ns = flat_map (put_int w) ns

  unfoldable pub character_bytes : Character × List Item → List ℕ
  unfolding ints flat_map item_bytes float_as_u32
  character_bytes (c, items) =
      put_int 8 c.id
      ++ (put_str c.name
          ++ (ints 1 (c.race ∷ c.class ∷ [])
              ++ (ints 1 (
                    c.gender ∷ c.skin_color ∷ c.face ∷ c.hair_style ∷ c.hair_color ∷ c.facial_style
                    ∷ [])
                  ++ (put_int 1 c.level
                      ++ (ints 4 (
                            c.zone
                            ∷ c.map_id
                            ∷ float_as_u32 c.position_x
                            ∷ float_as_u32 c.position_y
                            ∷ float_as_u32 c.position_z
                            ∷ [])
                          ++ (ints 4 (0 ∷ 0 ∷ 0 ∷ [])
                              ++ (put_int 1 0
                                  ++ (ints 4 (0 ∷ 0 ∷ 0 ∷ []) ++ flat_map item_bytes items))))))))

  unfoldable pub data_times_bytes : ℕ → AccountData → List ℕ
  unfolding ints flat_map time_of
  data_times_bytes now d =
      put_int 4 (now % 2 ^ 32)
      ++ (put_int 1 0
          ++ ints 4 (
              global_cache_mask
              ∷ time_of d.config.global
              ∷ time_of d.bindings.global
              ∷ time_of d.macros.global
              ∷ []))

  data_times : Option ℕ → AccountData → Outcome SessionError (OpCode × List ℕ)
  unfolding data_times_bytes
  data_times none d = err clock_before_epoch
  data_times (some now) d = ok (smsg_account_data_times, data_times_bytes now d)

  -- the opcode and the body that are written; `unix` is the time in seconds from 1970, which a
  -- clock before that has not
  unfoldable pub packet_of : Option ℕ → ServerPacket → Outcome SessionError (OpCode × List ℕ)
  unfolding data_times ints flat_map addon_bytes character_bytes response_code client_version_code
  packet_of unix auth_response = ok (
    smsg_auth_response,
    put_int 4 (response_code auth_ok)
        ++ (put_int 4 0 ++ ints 1 (0 ∷ 0 ∷ client_version_code wotlk ∷ [])),
  )
  packet_of unix (addon_info addons) = ok (smsg_addon_info, flat_map addon_bytes addons ++ 0 ∷ [])
  packet_of unix (client_cache_version version) = ok (smsg_clientcache_version, put_int 4 version)
  packet_of unix tutorial_data = ok (smsg_tutorial_flags, ints 4 (replicate 8 0))
  packet_of unix (pong ping) = ok (smsg_pong, put_int 4 ping)
  packet_of unix (char_enum characters) =
      ok (smsg_char_enum, length characters % 2 ^ 8 ∷ flat_map character_bytes characters)
  packet_of unix (account_data_times d) = data_times unix d
  packet_of unix (realm_split realm) =
      ok (smsg_realm_split, put_int 4 realm ++ (put_int 4 0 ++ put_str (codes "01/01/01")))
  packet_of unix (character_create code) = ok (smsg_char_create, response_code code % 2 ^ 8 ∷ [])
  packet_of unix (character_delete code) = ok (smsg_char_delete, response_code code % 2 ^ 8 ∷ [])
