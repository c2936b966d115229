-- ===== src/WorldServer/Readers.antt =====
-- services/world/src/protocol/mod.rs: the fields that `read_packet` deserializes, in the order of its
-- tuples, with the types that the packets give them.
use azerust.Prelude.{ℕ, List, ◌==◌}
use azerust.Bincode.{Bincode, Reader, ◌>>=◌, done, get_array}
use azerust.Protocol.Packets.{AuthSession, Addon, NewCharacter}

module _ (e : Bincode) where
  open e use {get_int, get_str}

  unfoldable pub get_header : Reader (ℕ × ℕ)
  get_header = do size ← get_int 2; op_code ← get_int 2; _ ← get_int 2; done (size, op_code)

  -- the session, for the addons that come later
  unfoldable pub get_auth_session : Reader (List Addon → AuthSession)
  unfolding get_array
  get_auth_session = do
    build ← get_int 4
    server_id ← get_int 4
    username ← get_str
    login_server_type ← get_int 4
    local_challenge ← get_array e 4
    region_id ← get_int 4
    battlegroup_id ← get_int 4
    realm_id ← get_int 4
    dos_response ← get_int 8
    client_proof ← get_array e 20
    done λ addons. record {
      build = build;
      server_id = server_id;
      username = username;
      login_server_type = login_server_type;
      region_id = region_id;
      local_challenge = local_challenge;
      client_proof = client_proof;
      addons = addons;
      battlegroup_id = battlegroup_id;
      realm_id = realm_id;
      dos_response = dos_response;
    }

  -- an addon behind its name
  unfoldable pub get_addon : List ℕ → Reader Addon
  get_addon name = do
    has_sig ← get_int 1
    crc ← get_int 4
    crc2 ← get_int 4
    done (record { name = name; signature = has_sig == 1; crc = crc; crc2 = crc2 })

  -- the sequence number and the latency
  unfoldable pub get_ping : Reader (ℕ × ℕ)
  get_ping = do seq ← get_int 4; latency ← get_int 4; done (seq, latency)

  unfoldable pub get_character_create : Reader NewCharacter
  get_character_create = do
    name ← get_str
    race ← get_int 1
    class ← get_int 1
    gender ← get_int 1
    skin_color ← get_int 1
    face ← get_int 1
    hair_style ← get_int 1
    hair_color ← get_int 1
    facial_style ← get_int 1
    _ ← get_int 1
    done (record {
      name = name;
      race = race;
      class = class;
      gender = gender;
      skin_color = skin_color;
      face = face;
      hair_style = hair_style;
      hair_color = hair_color;
      facial_style = facial_style;
    })
