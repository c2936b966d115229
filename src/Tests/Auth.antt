-- ===== src/Tests/Auth.antt =====
-- Connections to the auth server over the concrete database.
use azerust.Prelude.{
  ℕ, ◌≡◌, ◌⊎◌, refl, List, [], ◌∷◌, ◌++◌, some, none, true, replicate, arith, bytes_eq,
}
use azerust.Prelude.Utf8.{is_utf8}
use azerust.Prelude.Outcome.{ok, err}
use azerust.Bincode.{deserialize, get_array, finish}
use azerust.Game.Accounts.{ReconnectToken, reconnect_accept}
use azerust.MysqlAuth.Accounts
use azerust.MysqlAuth.Db.{Db, attempt, draw, first_where}
use azerust.MysqlAuth.Realms
use azerust.MysqlAuth.Realms.{Service}
use azerust.Protocol.Auth.{AuthCommand, auth_command_from}
use azerust.AuthServer.Stream.{Stream, read_exact, read, write_all}
use azerust.AuthServer.Packets.{ConnectRequest, ReconnectProof, put_array}
use azerust.AuthServer.Readers.{get_connect_request, get_reconnect_proof}
use azerust.AuthServer.ClientPackets.{put_connect_request, put_reconnect_proof}
use azerust.AuthServer.Message.{
  realm_list_message, message_length, command_len, decode_message, read_packet, read_body,
}
use azerust.AuthServer.Message.Reading.{read_packet_whole, read_packet_split}
use azerust.AuthServer.Message.RoundTrip.{IsConnectRequest}
use azerust.AuthServer.Handlers.{
  start, reconnect_challenge, realmlist, Context, handle_reconnect_request, handle_reconnect_proof,
  handle_realmlist, read_username,
}
use azerust.AuthServer.Connection.{round, dispatch, connect_loop}
use azerust.AuthServer.Connection.Access.{
  opened, went_on, LoggedIn, LoggedInAgain, realm_list_needs_proof,
}
use azerust.AuthServer.Connection.Arrival.{other_build_refused}
use azerust.Tests.Instances.{crypto, bincode, schema}
use azerust.Tests.Srp.{alice, b}
use azerust.Tests.Mysql.{db, opened_list, session}

abbrev pub request : ConnectRequest
request = record {
  error = 8;
  size = 35;
  game_name = 87 ∷ 111 ∷ 87 ∷ 0 ∷ [];
  version_major = 3;
  version_minor = 3;
  version_patch = 5;
  build = 12340;
  platform = 54 ∷ 56 ∷ 120 ∷ 0 ∷ [];
  os = 110 ∷ 105 ∷ 87 ∷ 0 ∷ [];
  country = 83 ∷ 85 ∷ 110 ∷ 101 ∷ [];
  timezone_bias = 60;
  ipv4 = 127 ∷ 0 ∷ 0 ∷ 1 ∷ [];
  identifier_length = 5;
}

abbrev re_proof : ReconnectProof
re_proof = record {
  proof_data = replicate 16 4;
  client_proof = 1 ∷ replicate 19 0;
  unknown = replicate 20 0;
  key_count = 0;
}

abbrev context : List (List ℕ) → Context Db Service
context input = record {
  stream = record { input = input; output = []; writes_left = 9 };
  accounts = db;
  realms = opened_list;
}

valid : IsConnectRequest bincode request
valid = ground arith

known : auth_command_from 16 ≡ some AuthCommand.realm_list
unfolding auth_command_from
known = refl

abbrev pub x0 : Context Db Service
x0 = context (
    (2 ∷ put_connect_request bincode request)
    ∷ alice
    ∷ (3 ∷ put_reconnect_proof bincode re_proof)
    ∷ [])

abbrev x1 : Context Db Service
x1 = (round crypto bincode (Accounts.service crypto schema) (Realms.service schema) start x0).1

abbrev token : ReconnectToken
token = record {
  reconnect_proof = b;
  account = record {
    id = 1;
    username = alice;
    email = [];
    ban_status = none;
    salt = replicate 32 0;
    verifier = replicate 32 0;
    session_key = none;
    joindate = 7;
    last_login = none;
    online = 0;
  };
  session_key = session;
}

challenged :
    round crypto bincode (Accounts.service crypto schema) (Realms.service schema) start x0
    ≡ (ok (reconnect_challenge token), x1)
unfolding round dispatch read_packet read_body read_exact read command_len decode_message
    deserialize finish get_connect_request get_array put_connect_request put_array
    handle_reconnect_request read_username auth_command_from Accounts.initiate_relogin attempt draw
    first_where bytes_eq is_utf8 write_all
challenged = refl

abbrev x2 : Context Db Service
x2 =
    (round crypto bincode (Accounts.service crypto schema) (Realms.service schema)
      (reconnect_challenge token) x1).1

proved :
    round crypto bincode
      (Accounts.service crypto schema)
      (Realms.service schema)
      (reconnect_challenge token)
      x1
    ≡ (ok realmlist, x2)
unfolding round dispatch read_packet read_body read_exact read command_len decode_message
    deserialize finish get_connect_request get_reconnect_proof get_array put_connect_request
    put_reconnect_proof put_array handle_reconnect_request handle_reconnect_proof read_username
    auth_command_from Accounts.initiate_relogin Accounts.complete_relogin reconnect_accept attempt
    draw first_where bytes_eq is_utf8 write_all
proved = refl

abbrev x3 : Context Db Service
x3 =
    (dispatch crypto bincode (Accounts.service crypto schema) (Realms.service schema) realmlist
      (realm_list_message (record { bytes = replicate 4 0 })) x2).1

shown :
    dispatch crypto bincode
      (Accounts.service crypto schema)
      (Realms.service schema)
      realmlist
      (realm_list_message (record { bytes = replicate 4 0 }))
      x2
    ≡ (ok realmlist, x3)
unfolding round dispatch read_packet read_body read_exact read command_len decode_message
    deserialize finish get_connect_request get_reconnect_proof get_array put_connect_request
    put_reconnect_proof put_array handle_reconnect_request handle_reconnect_proof read_username
    auth_command_from Accounts.initiate_relogin Accounts.complete_relogin reconnect_accept attempt
    draw first_where bytes_eq is_utf8 write_all handle_realmlist Realms.realms
shown = refl

realm_list_needs_proof_example :
    LoggedIn crypto bincode (Accounts.service crypto schema) (Realms.service schema) x0
    ⊎ LoggedInAgain crypto bincode (Accounts.service crypto schema) (Realms.service schema) x0
realm_list_needs_proof_example =
    realm_list_needs_proof crypto bincode (Accounts.service crypto schema) (Realms.service schema)
      x2 x3 (record { bytes = replicate 4 0 }) (went_on (went_on opened challenged) proved) shown

abbrev stream : List (List ℕ) → Stream
stream input = record { input = input; output = []; writes_left = 9 }

read_packet_whole_example :
    read_packet bincode (stream ((16 ∷ 0 ∷ 0 ∷ 0 ∷ 0 ∷ 7 ∷ []) ∷ []))
    ≡ (decode_message bincode AuthCommand.realm_list (0 ∷ 0 ∷ 0 ∷ 0 ∷ []), stream ((7 ∷ []) ∷ []))
unfolding command_len
read_packet_whole_example =
    read_packet_whole bincode (stream ((16 ∷ 0 ∷ 0 ∷ 0 ∷ 0 ∷ 7 ∷ []) ∷ [])) 16
      (0 ∷ 0 ∷ 0 ∷ 0 ∷ 7 ∷ []) [] AuthCommand.realm_list refl known (omega arith)

read_packet_split_example :
    (read_packet bincode (stream ((16 ∷ 0 ∷ 0 ∷ []) ∷ (0 ∷ 0 ∷ []) ∷ []))).0
    ≡ err (message_length 2 4)
unfolding command_len
read_packet_split_example =
    read_packet_split bincode (stream ((16 ∷ 0 ∷ 0 ∷ []) ∷ (0 ∷ 0 ∷ []) ∷ [])) 16 0 (0 ∷ [])
      ((0 ∷ 0 ∷ []) ∷ []) AuthCommand.realm_list refl known (omega arith)

abbrev old_request : ConnectRequest
old_request = record request { build = 8606 }

other_build_refused_example :
    connect_loop crypto bincode
      (Accounts.service crypto schema)
      (Realms.service schema)
      1
      start
      (context ((2 ∷ put_connect_request bincode old_request ++ []) ∷ []))
    ≡ some (
      ok tt,
      record {
        stream = record { input = [] ∷ []; output = (2 ∷ 0 ∷ 9 ∷ []) ∷ []; writes_left = 8 };
        accounts = db;
        realms = opened_list;
      },
    )
other_build_refused_example =
    other_build_refused crypto bincode (Accounts.service crypto schema) (Realms.service schema) 0 8
      true old_request [] [] start
      (context ((2 ∷ put_connect_request bincode old_request ++ []) ∷ [])) (ground arith) refl refl
      (omega arith)

abbrev pub long_request : ConnectRequest
long_request = record request { identifier_length = 17 }
