-- ===== src/Protocol/World.antt =====
-- crates/protocol/src/world.rs: the opcodes and the response codes of the world server.
use azerust.Prelude.{
  ℕ, ◌<◌, ◌^◌, ◌≡◌, refl, Option, some, none, List, [], ◌∷◌, ◌==◌, if◌then◌else◌, arith,
}

pub data OpCode : Type 0 where
  cmsg_char_create cmsg_char_enum cmsg_char_delete smsg_char_create smsg_char_enum : OpCode
  smsg_char_delete cmsg_player_login cmsg_name_query smsg_name_query_response : OpCode
  smsg_tutorial_flags cmsg_played_time smsg_played_time cmsg_query_time : OpCode
  smsg_query_time_response cmsg_ping smsg_pong smsg_auth_challenge : OpCode
  cmsg_auth_session smsg_auth_response cmsg_zoneupdate smsg_account_data_times : OpCode
  cmsg_request_account_data cmsg_update_account_data smsg_update_account_data : OpCode
  cmsg_set_actionbar_toggles smsg_addon_info smsg_realm_split cmsg_realm_split : OpCode
  cmsg_set_active_voice_channel smsg_clientcache_version : OpCode
  cmsg_world_state_ui_timer_update smsg_world_state_ui_timer_update : OpCode
  cmsg_ready_for_account_data_times : OpCode

unfoldable pub opcode_code : OpCode → ℕ
opcode_code cmsg_char_create = 0x036
opcode_code cmsg_char_enum = 0x037
opcode_code cmsg_char_delete = 0x038
opcode_code smsg_char_create = 0x03A
opcode_code smsg_char_enum = 0x03B
opcode_code smsg_char_delete = 0x03C
opcode_code cmsg_player_login = 0x03D
opcode_code cmsg_name_query = 0x050
opcode_code smsg_name_query_response = 0x051
opcode_code smsg_tutorial_flags = 0x0FD
opcode_code cmsg_played_time = 0x1CC
opcode_code smsg_played_time = 0x1CD
opcode_code cmsg_query_time = 0x1CE
opcode_code smsg_query_time_response = 0x1CF
opcode_code cmsg_ping = 0x1DC
opcode_code smsg_pong = 0x1DD
opcode_code smsg_auth_challenge = 0x1EC
opcode_code cmsg_auth_session = 0x1ED
opcode_code smsg_auth_response = 0x1EE
opcode_code cmsg_zoneupdate = 0x1F4
opcode_code smsg_account_data_times = 0x209
opcode_code cmsg_request_account_data = 0x20A
opcode_code cmsg_update_account_data = 0x20B
opcode_code smsg_update_account_data = 0x20C
opcode_code cmsg_set_actionbar_toggles = 0x2BF
opcode_code smsg_addon_info = 0x2EF
opcode_code smsg_realm_split = 0x38B
opcode_code cmsg_realm_split = 0x38C
opcode_code cmsg_set_active_voice_channel = 0x3D3
opcode_code smsg_clientcache_version = 0x4AB
opcode_code cmsg_world_state_ui_timer_update = 0x4F6
opcode_code smsg_world_state_ui_timer_update = 0x4F7
opcode_code cmsg_ready_for_account_data_times = 0x4FF

abbrev all_opcodes : List OpCode
all_opcodes =
    cmsg_char_create ∷ cmsg_char_enum ∷ cmsg_char_delete ∷ smsg_char_create ∷ smsg_char_enum
    ∷ smsg_char_delete ∷ cmsg_player_login ∷ cmsg_name_query ∷ smsg_name_query_response
    ∷ smsg_tutorial_flags ∷ cmsg_played_time ∷ smsg_played_time ∷ cmsg_query_time
    ∷ smsg_query_time_response ∷ cmsg_ping ∷ smsg_pong ∷ smsg_auth_challenge ∷ cmsg_auth_session
    ∷ smsg_auth_response ∷ cmsg_zoneupdate ∷ smsg_account_data_times ∷ cmsg_request_account_data
    ∷ cmsg_update_account_data ∷ smsg_update_account_data ∷ cmsg_set_actionbar_toggles
    ∷ smsg_addon_info ∷ smsg_realm_split ∷ cmsg_realm_split ∷ cmsg_set_active_voice_channel
    ∷ smsg_clientcache_version ∷ cmsg_world_state_ui_timer_update ∷ smsg_world_state_ui_timer_update
    ∷ cmsg_ready_for_account_data_times ∷ []

find_code : ℕ → List OpCode → Option OpCode
find_code b [] = none
find_code b (c ∷ rest) = let more = find_code b rest in if opcode_code c == b then some c else more

-- `OpCode::try_from`, which the derive makes of the numbers above
unfoldable pub opcode_from : ℕ → Option OpCode
unfolding find_code opcode_code
opcode_from b = find_code b all_opcodes

pub data ResponseCode : Type 0 where
  auth_ok auth_reject auth_system_error auth_unknown_account auth_session_expired : ResponseCode
  auth_already_online realm_list_realm_not_found char_create_success : ResponseCode
  char_create_error char_create_name_in_use char_delete_success char_delete_failed : ResponseCode
  char_name_failure char_name_no_name char_name_too_short char_name_too_long : ResponseCode

unfoldable pub response_code : ResponseCode → ℕ
response_code auth_ok = 12
response_code auth_reject = 14
response_code auth_system_error = 17
response_code auth_unknown_account = 21
response_code auth_session_expired = 23
response_code auth_already_online = 29
response_code realm_list_realm_not_found = 39
response_code char_create_success = 47
response_code char_create_error = 48
response_code char_create_name_in_use = 50
response_code char_delete_success = 71
response_code char_delete_failed = 72
response_code char_name_failure = 88
response_code char_name_no_name = 89
response_code char_name_too_short = 90
response_code char_name_too_long = 91

-- A number is read as an opcode exactly when it is that opcode's number.
pub opcode_from-code : (c : OpCode) → opcode_from (opcode_code c) ≡ some c
unfolding opcode_from opcode_code
opcode_from-code cmsg_char_create = refl
opcode_from-code cmsg_char_enum = refl
opcode_from-code cmsg_char_delete = refl
opcode_from-code smsg_char_create = refl
opcode_from-code smsg_char_enum = refl
opcode_from-code smsg_char_delete = refl
opcode_from-code cmsg_player_login = refl
opcode_from-code cmsg_name_query = refl
opcode_from-code smsg_name_query_response = refl
opcode_from-code smsg_tutorial_flags = refl
opcode_from-code cmsg_played_time = refl
opcode_from-code smsg_played_time = refl
opcode_from-code cmsg_query_time = refl
opcode_from-code smsg_query_time_response = refl
opcode_from-code cmsg_ping = refl
opcode_from-code smsg_pong = refl
opcode_from-code smsg_auth_challenge = refl
opcode_from-code cmsg_auth_session = refl
opcode_from-code smsg_auth_response = refl
opcode_from-code cmsg_zoneupdate = refl
opcode_from-code smsg_account_data_times = refl
opcode_from-code cmsg_request_account_data = refl
opcode_from-code cmsg_update_account_data = refl
opcode_from-code smsg_update_account_data = refl
opcode_from-code cmsg_set_actionbar_toggles = refl
opcode_from-code smsg_addon_info = refl
opcode_from-code smsg_realm_split = refl
opcode_from-code cmsg_realm_split = refl
opcode_from-code cmsg_set_active_voice_channel = refl
opcode_from-code smsg_clientcache_version = refl
opcode_from-code cmsg_world_state_ui_timer_update = refl
opcode_from-code smsg_world_state_ui_timer_update = refl
opcode_from-code cmsg_ready_for_account_data_times = refl

find_code-some :
    (b : ℕ) (cs : List OpCode) (c : OpCode) → find_code b cs ≡ some c → opcode_code c ≡ b
unfolding find_code
find_code-some b [] c h = cc
find_code-some b (d ∷ rest) c h = ground (arith, find_code-some b rest c)

pub opcode_from-some : (b : ℕ) (c : OpCode) → opcode_from b ≡ some c → opcode_code c ≡ b
unfolding opcode_from
opcode_from-some b c h = find_code-some b all_opcodes c h

pub opcode-lt : (c : OpCode) → opcode_code c < 2 ^ 16
unfolding opcode_code
opcode-lt cmsg_char_create = omega arith
opcode-lt cmsg_char_enum = omega arith
opcode-lt cmsg_char_delete = omega arith
opcode-lt smsg_char_create = omega arith
opcode-lt smsg_char_enum = omega arith
opcode-lt smsg_char_delete = omega arith
opcode-lt cmsg_player_login = omega arith
opcode-lt cmsg_name_query = omega arith
opcode-lt smsg_name_query_response = omega arith
opcode-lt smsg_tutorial_flags = omega arith
opcode-lt cmsg_played_time = omega arith
opcode-lt smsg_played_time = omega arith
opcode-lt cmsg_query_time = omega arith
opcode-lt smsg_query_time_response = omega arith
opcode-lt cmsg_ping = omega arith
opcode-lt smsg_pong = omega arith
opcode-lt smsg_auth_challenge = omega arith
opcode-lt cmsg_auth_session = omega arith
opcode-lt smsg_auth_response = omega arith
opcode-lt cmsg_zoneupdate = omega arith
opcode-lt smsg_account_data_times = omega arith
opcode-lt cmsg_request_account_data = omega arith
opcode-lt cmsg_update_account_data = omega arith
opcode-lt smsg_update_account_data = omega arith
opcode-lt cmsg_set_actionbar_toggles = omega arith
opcode-lt smsg_addon_info = omega arith
opcode-lt smsg_realm_split = omega arith
opcode-lt cmsg_realm_split = omega arith
opcode-lt cmsg_set_active_voice_channel = omega arith
opcode-lt smsg_clientcache_version = omega arith
opcode-lt cmsg_world_state_ui_timer_update = omega arith
opcode-lt smsg_world_state_ui_timer_update = omega arith
opcode-lt cmsg_ready_for_account_data_times = omega arith
