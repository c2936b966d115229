-- ===== src/WorldServer/Framing/Faults.antt =====
-- The bytes that stop the task which reads from a client.
use azerust.Prelude.{ℕ, ◌+◌, ◌^◌, ◌<◌, ◌⊎◌, List, ◌++◌, length}
use azerust.Bincode.{Bincode}
use azerust.Protocol.World.{
  OpCode, cmsg_set_active_voice_channel, cmsg_name_query, cmsg_played_time, cmsg_query_time,
  cmsg_zoneupdate, cmsg_request_account_data, cmsg_update_account_data, cmsg_set_actionbar_toggles,
  cmsg_world_state_ui_timer_update,
}
use azerust.WorldServer.Framing.Headers.{header_with}
use azerust.WorldServer.Framing.RoundTrip.{client_header}

-- The opcodes whose packets are still to be done.
pub data IsTodo : OpCode → Type 0 where
  set_active_voice_channel : IsTodo cmsg_set_active_voice_channel
  name_query : IsTodo cmsg_name_query
  played_time : IsTodo cmsg_played_time
  query_time : IsTodo cmsg_query_time
  zoneupdate : IsTodo cmsg_zoneupdate
  request_account_data : IsTodo cmsg_request_account_data
  update_account_data : IsTodo cmsg_update_account_data
  set_actionbar_toggles : IsTodo cmsg_set_actionbar_toggles
  world_state_ui_timer_update : IsTodo cmsg_world_state_ui_timer_update

-- What a client may send: less than a header, a size field that leaves out the opcode or goes
-- beyond the bytes that came, or a packet that is still to be done.
pub data Crash : List ℕ → Type 0 where
  short : (bytes : List ℕ) → 0 < length bytes → length bytes < 6 → Crash bytes
  wrong_size :
      (code : OpCode) (size : ℕ) (rest : List ℕ)
      → size < 2 ^ 16
      → (size < 4) ⊎ (length rest + 4 < size)
      → Crash (header_with code size ++ rest)
  todo :
      (code : OpCode) (body rest : List ℕ)
      → length body + 4 < 2 ^ 16
      → IsTodo code
      → Crash (client_header code (length body) ++ (body ++ rest))
