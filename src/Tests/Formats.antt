-- ===== src/Tests/Formats.antt =====
-- The tests of services/auth/src/protocol/packets.rs: the formats of the packets, each test as a
-- comparison of the bytes that the encoder writes with the bytes that the test expects.
use azerust.Prelude.{◌≡◌, refl, Bool, true, false, ◌&&◌, List, ℕ, [], ◌∷◌, bytes_eq}
use azerust.Prelude.Text.{codes}
use azerust.Srp.{WowSrpServer, get_g, get_n}
use azerust.Protocol.Auth.{AuthCommand, ReturnCode, auth_command_code, return_code}
use azerust.AuthServer.Packets.{
  Realm, put_realm, put_realm_list_response, response_from_realms, put_reply, put_connect_challenge,
  put_proof_response, put_array, realms_size,
}
use azerust.Tests.Instances.{crypto, bincode}

abbrev blackrock : ℕ → Realm
blackrock realm_id = record {
  realm_type = 0x01;
  locked = false;
  flags = 0;
  name = codes "Blackrock";
  socket = codes "51.178.64.97:8095";
  population = 0;
  character_count = 0;
  timezone = 8;
  realm_id = realm_id;
}

abbrev realm_response_size : Bool
realm_response_size = bytes_eq (put_realm bincode (blackrock 2)) (
    1 ∷ 0 ∷ 0 ∷ 66 ∷ 108 ∷ 97 ∷ 99 ∷ 107 ∷ 114 ∷ 111 ∷ 99 ∷ 107 ∷ 0 ∷ 53 ∷ 49 ∷ 46 ∷ 49 ∷ 55 ∷ 56
    ∷ 46 ∷ 54 ∷ 52 ∷ 46 ∷ 57 ∷ 55 ∷ 58 ∷ 56 ∷ 48 ∷ 57 ∷ 53 ∷ 0 ∷ 0 ∷ 0 ∷ 0 ∷ 0 ∷ 0 ∷ 8 ∷ 2 ∷ [])

realm_response_size_passes : realm_response_size ≡ true
unfolding put_realm bytes_eq
realm_response_size_passes = refl

abbrev realmlist_response_size : Bool
realmlist_response_size =
    bytes_eq (put_realm_list_response bincode (response_from_realms bincode []))
      (8 ∷ 0 ∷ 0 ∷ 0 ∷ 0 ∷ 0 ∷ 0 ∷ 0 ∷ [])
    && bytes_eq (put_realm_list_response bincode (response_from_realms bincode (blackrock 3 ∷ [])))
        (46 ∷ 0 ∷ 0 ∷ 0 ∷ 0 ∷ 0 ∷ 1 ∷ 0 ∷ [])

realmlist_response_size_passes : realmlist_response_size ≡ true
unfolding put_realm_list_response response_from_realms realms_size put_realm put_array bytes_eq
realmlist_response_size_passes = refl

abbrev connect_challenge_unknown_account_format : Bool
connect_challenge_unknown_account_format =
    bytes_eq (put_reply bincode AuthCommand.connect ReturnCode.unknown_account) (0 ∷ 0 ∷ 4 ∷ [])

abbrev encode_auth_command : Bool
encode_auth_command = bytes_eq (bincode.put_int 1 (auth_command_code AuthCommand.proof)) (1 ∷ [])

abbrev reply_packet_format : Bool
reply_packet_format =
    bytes_eq (put_reply bincode AuthCommand.connect ReturnCode.success) (0 ∷ 0 ∷ 0 ∷ [])

abbrev ip_ban_format : Bool
ip_ban_format = bytes_eq (put_reply bincode AuthCommand.connect ReturnCode.banned) (0 ∷ 0 ∷ 3 ∷ [])

replies_pass :
    connect_challenge_unknown_account_format && encode_auth_command && reply_packet_format
      && ip_ban_format
    ≡ true
unfolding put_reply bytes_eq auth_command_code return_code
replies_pass = refl

abbrev salt : List ℕ
salt =
    129 ∷ 99 ∷ 242 ∷ 106 ∷ 75 ∷ 46 ∷ 13 ∷ 205 ∷ 184 ∷ 188 ∷ 97 ∷ 36 ∷ 45 ∷ 78 ∷ 143 ∷ 43 ∷ 77 ∷ 167
    ∷ 10 ∷ 162 ∷ 184 ∷ 241 ∷ 203 ∷ 198 ∷ 21 ∷ 245 ∷ 94 ∷ 80 ∷ 58 ∷ 48 ∷ 151 ∷ 20 ∷ []

abbrev b_pub : List ℕ
b_pub =
    192 ∷ 43 ∷ 132 ∷ 161 ∷ 6 ∷ 98 ∷ 166 ∷ 88 ∷ 39 ∷ 75 ∷ 73 ∷ 80 ∷ 84 ∷ 249 ∷ 113 ∷ 192 ∷ 25 ∷ 201
    ∷ 13 ∷ 134 ∷ 177 ∷ 68 ∷ 175 ∷ 141 ∷ 209 ∷ 131 ∷ 57 ∷ 143 ∷ 83 ∷ 18 ∷ 127 ∷ 53 ∷ []

-- the private key and the public key of the server, which are drawn, do not reach the message
abbrev server : List ℕ → List ℕ → WowSrpServer
server b own_b_pub = record {
  salt = salt;
  verifier =
      32 ∷ 31 ∷ 17 ∷ 126 ∷ 242 ∷ 71 ∷ 70 ∷ 145 ∷ 51 ∷ 57 ∷ 62 ∷ 196 ∷ 188 ∷ 152 ∷ 15 ∷ 221 ∷ 10
      ∷ 138 ∷ 167 ∷ 48 ∷ 130 ∷ 222 ∷ 161 ∷ 154 ∷ 32 ∷ 59 ∷ 69 ∷ 74 ∷ 146 ∷ 208 ∷ 92 ∷ 136 ∷ [];
  identity_hash = crypto.sha1 (codes "ARLYON");
  b = b;
  b_pub = own_b_pub;
}

abbrev connect_challenge_format : List ℕ → List ℕ → Bool
connect_challenge_format b own_b_pub =
    bytes_eq
      (put_connect_challenge bincode (record {
        b_pub = b_pub;
        g = get_g crypto (server b own_b_pub);
        n = get_n crypto (server b own_b_pub);
        s = salt;
        security_flags = 0;
      }))
      (192 ∷ 43 ∷ 132 ∷ 161 ∷ 6 ∷ 98 ∷ 166 ∷ 88 ∷ 39 ∷ 75 ∷ 73 ∷ 80 ∷ 84 ∷ 249 ∷ 113 ∷ 192 ∷ 25
        ∷ 201 ∷ 13 ∷ 134 ∷ 177 ∷ 68 ∷ 175 ∷ 141 ∷ 209 ∷ 131 ∷ 57 ∷ 143 ∷ 83 ∷ 18 ∷ 127 ∷ 53 ∷ 1 ∷ 7
        ∷ 32 ∷ 183 ∷ 155 ∷ 62 ∷ 42 ∷ 135 ∷ 130 ∷ 60 ∷ 171 ∷ 143 ∷ 94 ∷ 191 ∷ 191 ∷ 142 ∷ 177 ∷ 1 ∷ 8
        ∷ 83 ∷ 80 ∷ 6 ∷ 41 ∷ 139 ∷ 91 ∷ 173 ∷ 189 ∷ 91 ∷ 83 ∷ 225 ∷ 137 ∷ 94 ∷ 100 ∷ 75 ∷ 137 ∷ 129
        ∷ 99 ∷ 242 ∷ 106 ∷ 75 ∷ 46 ∷ 13 ∷ 205 ∷ 184 ∷ 188 ∷ 97 ∷ 36 ∷ 45 ∷ 78 ∷ 143 ∷ 43 ∷ 77 ∷ 167
        ∷ 10 ∷ 162 ∷ 184 ∷ 241 ∷ 203 ∷ 198 ∷ 21 ∷ 245 ∷ 94 ∷ 80 ∷ 58 ∷ 48 ∷ 151 ∷ 20 ∷ 186 ∷ 163
        ∷ 30 ∷ 153 ∷ 160 ∷ 11 ∷ 33 ∷ 87 ∷ 252 ∷ 55 ∷ 63 ∷ 179 ∷ 105 ∷ 205 ∷ 210 ∷ 241 ∷ 0 ∷ [])

connect_challenge_format_passes :
    (b own_b_pub : List ℕ) → connect_challenge_format b own_b_pub ≡ true
unfolding put_connect_challenge put_array bytes_eq get_g get_n
connect_challenge_format_passes b own_b_pub = refl

abbrev proof_confirm_format : Bool
proof_confirm_format =
    bytes_eq
      (put_proof_response bincode (record {
        error = 0;
        server_proof =
            177 ∷ 50 ∷ 224 ∷ 237 ∷ 37 ∷ 4 ∷ 196 ∷ 159 ∷ 100 ∷ 31 ∷ 30 ∷ 14 ∷ 198 ∷ 45 ∷ 137 ∷ 158
            ∷ 228 ∷ 82 ∷ 244 ∷ 140 ∷ [];
        account_flags = 0x00800000;
        survey_id = 0;
        login_flags = 0;
      }))
      (1 ∷ 0 ∷ 177 ∷ 50 ∷ 224 ∷ 237 ∷ 37 ∷ 4 ∷ 196 ∷ 159 ∷ 100 ∷ 31 ∷ 30 ∷ 14 ∷ 198 ∷ 45 ∷ 137 ∷ 158
        ∷ 228 ∷ 82 ∷ 244 ∷ 140 ∷ 0 ∷ 0 ∷ 128 ∷ 0 ∷ 0 ∷ 0 ∷ 0 ∷ 0 ∷ 0 ∷ 0 ∷ [])

proof_confirm_format_passes : proof_confirm_format ≡ true
unfolding put_proof_response put_array bytes_eq auth_command_code
proof_confirm_format_passes = refl
