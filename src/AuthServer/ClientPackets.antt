-- ===== src/AuthServer/ClientPackets.antt =====
-- services/auth/src/protocol/packets.rs: the encodings that the derives of `Serialize` give to the
-- packets of a client, the fields in the order of their declaration.
use azerust.Prelude.{ℕ, List, ◌++◌}
use azerust.Bincode.{Bincode}
use azerust.AuthServer.Packets.{ConnectRequest, ConnectProof, ReconnectProof, put_array}

module _ (e : Bincode) where
  open e use {put_int}

  unfoldable pub put_connect_request : ConnectRequest → List ℕ
  put_connect_request r =
      put_int 1 r.error
      ++ (put_int 2 r.size
          ++ (put_array e r.game_name
              ++ (put_int 1 r.version_major
                  ++ (put_int 1 r.version_minor
                      ++ (put_int 1 r.version_patch
                          ++ (put_int 2 r.build
                              ++ (put_array e r.platform
                                  ++ (put_array e r.os
                                      ++ (put_array e r.country
                                          ++ (put_int 4 r.timezone_bias
                                              ++ (put_array e r.ipv4
                                                  ++ put_int 1 r.identifier_length)))))))))))

  unfoldable pub put_connect_proof : ConnectProof → List ℕ
  put_connect_proof p =
      put_array e p.user_public_key
      ++ (put_array e p.user_proof
          ++ (put_array e p.crc_hash ++ (put_int 1 p.number_of_keys ++ put_int 1 p.security_flags)))

  unfoldable pub put_reconnect_proof : ReconnectProof → List ℕ
  put_reconnect_proof p =
      put_array e p.proof_data
      ++ (put_array e p.client_proof ++ (put_array e p.unknown ++ put_int 1 p.key_count))
