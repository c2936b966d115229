-- ===== src/WorldServer/Decode.antt =====
-- `read_packet` of services/world/src/protocol/mod.rs: a packet of a client from its opcode and its
-- bytes. The crate `flate2` is the record Zlib: what `read_to_end` of a decoder returns.
use azerust.Prelude.{
  ℕ, zero, suc, ◌+◌, ◌≡◌, Option, some, none, List, [], ◌∷◌, take, drop, length, leb, ◌==◌,
  if◌then◌else◌,
}
use azerust.Prelude.Utf8.{is_utf8}
use azerust.Prelude.Outcome.{Outcome, ok, err, panic, ok_or, ◌>>=◌}
use azerust.Bincode.{Bincode, deserialize}
use azerust.Protocol.World.{
  OpCode, cmsg_auth_session, cmsg_ping, cmsg_ready_for_account_data_times, cmsg_char_enum,
  cmsg_realm_split, cmsg_char_create, cmsg_player_login, cmsg_char_delete,
  cmsg_set_active_voice_channel, cmsg_name_query, cmsg_played_time, cmsg_query_time,
  cmsg_zoneupdate, cmsg_request_account_data, cmsg_update_account_data, cmsg_set_actionbar_toggles,
  cmsg_world_state_ui_timer_update,
}
use azerust.Protocol.Packets.{
  ClientPacket, auth_session, ping, ready_for_account_data_times, char_enum, realm_split,
  character_create, player_login, character_delete, Addon,
}
use azerust.WorldServer.Readers.{get_auth_session, get_addon, get_ping, get_character_create}

pub record Zlib : Type 0 where
  pub inflate : List ℕ → Option (List ℕ)
  pub deflate : List ℕ → List ℕ
  pub inflate-deflate : (bytes : List ℕ) → inflate (deflate bytes) ≡ some bytes

-- The errors of `read_packets` and `read_packet`, less their texts.
pub data FrameError : Type 0 where
  connection_closed decode_error no_string_end zlib_error wrong_addon_size not_utf8 : FrameError
  unknown_op_code : ℕ → FrameError
  unsupported_op_code : OpCode → FrameError

-- `&bytes[..end]` and `&bytes[start..]`
unfoldable pub slice_to : ℕ → List ℕ → Outcome FrameError (List ℕ)
slice_to end bytes = if leb end (length bytes) then ok (take end bytes) else panic

unfoldable pub slice_from : ℕ → List ℕ → Outcome FrameError (List ℕ)
slice_from start bytes = if leb start (length bytes) then ok (drop start bytes) else panic

-- `position(|&x| x == 0)`
unfoldable pub position_zero : List ℕ → Option ℕ
position_zero [] = none
position_zero (b ∷ bs) =
    let more = position_zero bs in
    if b == 0 then some 0 else (elim more [ none ↦ none | some i ↦ some (suc i) ])

as_packet : {A : Type 0} → (A → ClientPacket) → Option A → Outcome FrameError ClientPacket
as_packet f none = err decode_error
as_packet f (some a) = ok (f a)

module _ (e : Bincode) (z : Zlib) where
  -- the closure over the addons, which starts at the cursor; with the bytes behind the addon
  read_addon : List ℕ → Outcome FrameError (Addon × List ℕ)
  unfolding slice_to slice_from position_zero
  read_addon unzipped = do
    idx ← ok_or (position_zero unzipped) no_string_end
    name ← if is_utf8 (take idx unzipped) then ok (take idx unzipped) else err not_utf8
    behind ← slice_from (idx + 1) unzipped
    fields ← slice_to 9 behind
    addon ← ok_or (deserialize e (get_addon e name) fields) decode_error
    ok (addon, drop (idx + 1 + 9) unzipped)

  read_addon_list : ℕ → List ℕ → Outcome FrameError (List Addon)
  read_addon_list zero unzipped = ok []
  read_addon_list (suc n) unzipped =
      read_addon unzipped >>= λ p. read_addon_list n p.1 >>= λ addons. ok (p.0 ∷ addons)

  unfoldable pub read_addons : List ℕ → Outcome FrameError (List Addon)
  unfolding read_addon_list read_addon
  read_addons addons = do
    size_field ← slice_to 4 addons
    expected_size ← ok_or (deserialize e (e.get_int 4) size_field) decode_error
    zipped ← slice_from 4 addons
    unzipped ← ok_or (z.inflate zipped) zlib_error
    all ← if length unzipped == expected_size then ok unzipped else err wrong_addon_size
    count_field ← slice_to 4 all
    addon_count ← ok_or (deserialize e (e.get_int 4) count_field) decode_error
    read_addon_list addon_count (drop 4 all)

  -- `str_end` is the first zero from index 8 on
  unfoldable pub read_auth_session : List ℕ → Outcome FrameError ClientPacket
  unfolding read_addons
  read_auth_session bytes = do
    idx ← ok_or (position_zero (drop 8 bytes)) no_string_end
    let addon_start = 8 + idx + 1 + 4 + 4 + 4 + 4 + 4 + 8 + 20
    packet ← slice_to addon_start bytes
    addons ← slice_from addon_start bytes
    session ← ok_or (deserialize e (get_auth_session e) packet) decode_error
    read_list ← read_addons addons
    ok (auth_session (session read_list))

  unfoldable pub read_packet : OpCode → List ℕ → Outcome FrameError ClientPacket
  unfolding read_auth_session as_packet
  read_packet cmsg_auth_session bytes = read_auth_session bytes
  read_packet cmsg_ping bytes = as_packet (λ p. ping p.0 p.1) (deserialize e (get_ping e) bytes)
  read_packet cmsg_ready_for_account_data_times bytes = ok ready_for_account_data_times
  read_packet cmsg_char_enum bytes = ok char_enum
  read_packet cmsg_realm_split bytes = ok (realm_split 1)
  read_packet cmsg_char_create bytes =
      as_packet character_create (deserialize e (get_character_create e) bytes)
  read_packet cmsg_player_login bytes = as_packet player_login (deserialize e (e.get_int 8) bytes)
  read_packet cmsg_char_delete bytes =
      as_packet character_delete (deserialize e (e.get_int 8) bytes)
  read_packet cmsg_set_active_voice_channel bytes = panic
  read_packet cmsg_name_query bytes = panic
  read_packet cmsg_played_time bytes = panic
  read_packet cmsg_query_time bytes = panic
  read_packet cmsg_zoneupdate bytes = panic
  read_packet cmsg_request_account_data bytes = panic
  read_packet cmsg_update_account_data bytes = panic
  read_packet cmsg_set_actionbar_toggles bytes = panic
  read_packet cmsg_world_state_ui_timer_update bytes = panic
  read_packet c bytes = err (unsupported_op_code c)
