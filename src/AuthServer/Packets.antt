-- ===== src/AuthServer/Packets.antt =====
-- services/auth/src/protocol/packets.rs: the packets and their encodings. A packet is encoded field
-- by field in the order of its declaration.
use azerust.Prelude.{
  ℕ, zero, suc, ◌+◌, ◌/◌, ◌%◌, ◌^◌, Bool, true, false, List, [], ◌∷◌, ◌++◌, length, ltb,
  if◌then◌else◌,
}
use azerust.Bincode.{Bincode}
use azerust.Crypto.{Crypto}
use azerust.Srp
use azerust.Game.Accounts.{ConnectToken}
use azerust.Game.Realms
use azerust.Protocol.Auth.{AuthCommand, ReturnCode, auth_command_code, return_code}
use Prim.Native.Nat.{bit_and}

abbrev pub version_challenge : List ℕ
version_challenge =
    0xBA ∷ 0xA3 ∷ 0x1E ∷ 0x99 ∷ 0xA0 ∷ 0x0B ∷ 0x21 ∷ 0x57 ∷ 0xFC ∷ 0x37 ∷ 0x3F ∷ 0xB3 ∷ 0x69 ∷ 0xCD
    ∷ 0xD2 ∷ 0xF1 ∷ []

pub record ConnectRequest : Type 0 where
  pub error : ℕ
  pub size : ℕ
  pub game_name : List ℕ
  pub version_major : ℕ
  pub version_minor : ℕ
  pub version_patch : ℕ
  pub build : ℕ
  pub platform : List ℕ
  pub os : List ℕ
  pub country : List ℕ
  pub timezone_bias : ℕ
  pub ipv4 : List ℕ
  pub identifier_length : ℕ

pub record ConnectChallenge : Type 0 where
  pub b_pub : List ℕ
  pub g : List ℕ
  pub n : List ℕ
  pub s : List ℕ
  pub security_flags : ℕ

pub record ConnectProof : Type 0 where
  pub user_public_key : List ℕ
  pub user_proof : List ℕ
  pub crc_hash : List ℕ
  pub number_of_keys : ℕ
  pub security_flags : ℕ

pub record ConnectProofResponse : Type 0 where
  pub error : ℕ
  pub server_proof : List ℕ
  pub account_flags : ℕ
  pub survey_id : ℕ
  pub login_flags : ℕ

pub record ReconnectProof : Type 0 where
  pub proof_data : List ℕ
  pub client_proof : List ℕ
  pub unknown : List ℕ
  pub key_count : ℕ

pub record RealmListRequest : Type 0 where
  pub bytes : List ℕ

pub record RealmListResponse : Type 0 where
  pub packet_size : ℕ
  pub bytes : List ℕ
  pub realm_count : ℕ

pub record Realm : Type 0 where
  pub realm_type : ℕ
  pub locked : Bool
  pub flags : ℕ
  pub name : List ℕ
  pub socket : List ℕ
  pub population : ℕ
  pub character_count : ℕ
  pub timezone : ℕ
  pub realm_id : ℕ

-- `size_of` of the packed structures, as their `assert_eq_size` attributes fix them
abbrev pub connect_request_size : ℕ
connect_request_size = 1 + 2 + 4 + 1 + 1 + 1 + 2 + 4 + 4 + 4 + 4 + 4 + 1

abbrev pub connect_proof_size : ℕ
connect_proof_size = 32 + 20 + 20 + 1 + 1

abbrev pub reconnect_proof_size : ℕ
reconnect_proof_size = 16 + 20 + 20 + 1

abbrev pub realm_list_request_size : ℕ
realm_list_request_size = 4

-- the decimal digits of a number, at most `k` of them
decimal : ℕ → ℕ → List ℕ
decimal zero n = []
decimal (suc k) n =
    let more = decimal k (n / 10) in
    if ltb n 10 then (b'0' + n) ∷ [] else more ++ (b'0' + n % 10) ∷ []

bool_byte : Bool → ℕ
bool_byte false = 0
bool_byte true = 1

-- `format!("{}:{}", address, port)`; a port has at most five digits
unfoldable pub realm_from : Realms.Realm → ℕ → Bool → Realm
unfolding decimal Realms.realm_type_code
realm_from r character_count locked = record {
  realm_type = Realms.realm_type_code r.realm_type;
  locked = locked;
  flags = r.flags;
  name = r.name;
  socket = r.external_address ++ (b':' ∷ decimal 5 r.port);
  population = r.population;
  character_count = character_count;
  timezone = r.timezone;
  realm_id = r.id % 2 ^ 8;
}

module _ (c : Crypto) where
  unfoldable pub connect_challenge_from : ConnectToken → ConnectChallenge
  connect_challenge_from token = record {
    b_pub = token.server.b_pub;
    g = Srp.get_g c token.server;
    n = Srp.get_n c token.server;
    s = token.server.salt;
    security_flags = token.security_flags;
  }

module _ (e : Bincode) where
  open e use {put_int, put_str, put_len}

  -- [u8; n], and the elements of a Vec<u8>
  unfoldable pub put_array : List ℕ → List ℕ
  put_array [] = []
  put_array (b ∷ bs) = put_int 1 b ++ put_array bs

  -- with the varint encoding, as its caller sets it; the zeros of the optional fields are one byte
  unfoldable pub put_connect_challenge : ConnectChallenge → List ℕ
  unfolding put_array
  put_connect_challenge p =
      put_array p.b_pub
      ++ (put_len (length p.g) ++ put_array p.g)
      ++ (put_len (length p.n) ++ put_array p.n)
      ++ put_array p.s
      ++ put_array version_challenge
      ++ put_int 1 p.security_flags
      ++ (if ltb 0 (bit_and p.security_flags 0x01) then put_len 0 ++ put_len 0 ++ put_len 0 else [])
      ++ (if ltb 0 (bit_and p.security_flags 0x02)
          then put_int 1 0 ++ put_int 1 0 ++ put_int 1 0 ++ put_int 1 0 ++ put_len 0
          else [])
      ++ (if ltb 0 (bit_and p.security_flags 0x04) then put_int 1 0 else [])

  -- `ReplyPacket<ConnectChallenge>`
  unfoldable pub put_challenge_reply : ConnectChallenge → List ℕ
  unfolding put_connect_challenge
  put_challenge_reply message =
      put_int 1 (auth_command_code AuthCommand.connect)
      ++ (put_int 1 0
          ++ (put_int 1 (return_code ReturnCode.success) ++ put_connect_challenge message))

  -- `ReplyPacket<()>`
  unfoldable pub put_reply : AuthCommand → ReturnCode → List ℕ
  put_reply command status =
      put_int 1 (auth_command_code command) ++ (put_int 1 0 ++ put_int 1 (return_code status))

  unfoldable pub put_proof_response : ConnectProofResponse → List ℕ
  unfolding put_array
  put_proof_response r =
      put_int 1 (auth_command_code AuthCommand.proof)
      ++ (put_int 1 r.error
          ++ (put_array r.server_proof
              ++ (put_int 4 r.account_flags ++ (put_int 4 r.survey_id ++ put_int 2 r.login_flags))))

  unfoldable pub put_realm : Realm → List ℕ
  unfolding bool_byte
  put_realm r =
      put_int 1 r.realm_type
      ++ (put_int 1 (bool_byte r.locked)
          ++ (put_int 1 r.flags
              ++ (put_str r.name
                  ++ (put_str r.socket
                      ++ (put_int 4 r.population
                          ++ (put_int 1 r.character_count
                              ++ (put_int 1 r.timezone ++ put_int 1 r.realm_id)))))))

  unfoldable pub put_realm_list_response : RealmListResponse → List ℕ
  unfolding put_array
  put_realm_list_response r =
      put_int 2 r.packet_size ++ (put_array r.bytes ++ put_int 2 r.realm_count)

  unfoldable pub realms_size : List Realm → ℕ
  realms_size [] = 0
  realms_size (r ∷ rest) = length (put_realm r) + realms_size rest

  -- `len as u16`, and sums of u16 that wrap; the encoder refuses no realm
  unfoldable pub response_from_realms : List Realm → RealmListResponse
  unfolding realms_size put_realm
  response_from_realms realms = record {
    packet_size = (4 + 2 + realms_size realms % 2 ^ 16 + 2) % 2 ^ 16;
    bytes = 0 ∷ 0 ∷ 0 ∷ 0 ∷ [];
    realm_count = length realms % 2 ^ 16;
  }
