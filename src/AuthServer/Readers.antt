-- ===== src/AuthServer/Readers.antt =====
-- services/auth/src/protocol/packets.rs: the decoders of the packets of a client, field by field in the
-- order of their declarations.
use azerust.Bincode.{Bincode, Reader, ◌>>=◌, done, get_array}
use azerust.AuthServer.Packets.{ConnectRequest, ConnectProof, ReconnectProof, RealmListRequest}

module _ (e : Bincode) where
  open e use {get_int}

  unfoldable pub get_connect_request : Reader ConnectRequest
  unfolding get_array
  get_connect_request = do
    error ← get_int 1
    size ← get_int 2
    game_name ← get_array e 4
    version_major ← get_int 1
    version_minor ← get_int 1
    version_patch ← get_int 1
    build ← get_int 2
    platform ← get_array e 4
    os ← get_array e 4
    country ← get_array e 4
    timezone_bias ← get_int 4
    ipv4 ← get_array e 4
    identifier_length ← get_int 1
    done (record {
      error = error;
      size = size;
      game_name = game_name;
      version_major = version_major;
      version_minor = version_minor;
      version_patch = version_patch;
      build = build;
      platform = platform;
      os = os;
      country = country;
      timezone_bias = timezone_bias;
      ipv4 = ipv4;
      identifier_length = identifier_length;
    })

  unfoldable pub get_connect_proof : Reader ConnectProof
  unfolding get_array
  get_connect_proof = do
    user_public_key ← get_array e 32
    user_proof ← get_array e 20
    crc_hash ← get_array e 20
    number_of_keys ← get_int 1
    security_flags ← get_int 1
    done (record {
      user_public_key = user_public_key;
      user_proof = user_proof;
      crc_hash = crc_hash;
      number_of_keys = number_of_keys;
      security_flags = security_flags;
    })

  unfoldable pub get_reconnect_proof : Reader ReconnectProof
  unfolding get_array
  get_reconnect_proof = do
    proof_data ← get_array e 16
    client_proof ← get_array e 20
    unknown ← get_array e 20
    key_count ← get_int 1
    done (record {
      proof_data = proof_data;
      client_proof = client_proof;
      unknown = unknown;
      key_count = key_count;
    })

  unfoldable pub get_realm_list_request : Reader RealmListRequest
  unfolding get_array
  get_realm_list_request = do bytes ← get_array e 4; done (record { bytes = bytes })
