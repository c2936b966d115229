-- ===== src/Tests/Heartbeats.antt =====
-- Heartbeats noted by the auth server, the flags they give, and the bytes of a realm list.
use azerust.Prelude.{length, false, ℕ, ◌≡◌, refl, List, [], ◌∷◌, ◌++◌, some, replicate, arith}
use azerust.Prelude.Text.{codes}
use azerust.AuthServer.Packets.{
  realms_size, put_realm, ConnectRequest, ConnectProof, ReconnectProof, put_array,
}
use azerust.AuthServer.Packets
use azerust.AuthServer.RealmListSize.{realm_list_packet_size}
use azerust.AuthServer.Handlers.{realm_list_packet}
use azerust.AuthServer.Heartbeats.{Heartbeats, receive}
use azerust.AuthServer.Heartbeats.Liveness.{last_seen}
use azerust.WorldServer.Heartbeat.{heartbeat, heartbeat_noted}
use azerust.Tests.Instances.{bincode}

abbrev beats : Heartbeats
beats = record { buffer = replicate 6 0; seen = (1, 4000) ∷ (2, 40000) ∷ [] }

heartbeat_noted_example :
    last_seen 3 (receive bincode 60000 (some (heartbeat bincode 259 0)) beats).seen ≡ some 60000
heartbeat_noted_example = heartbeat_noted bincode 259 0 60000 3 beats (omega arith) refl

abbrev shown_realms : List Packets.Realm
shown_realms =
    record {
      realm_type = 1;
      locked = false;
      flags = 2;
      name = codes "Azeroth";
      socket = codes "127.0.0.1:8085";
      population = 0;
      character_count = 0;
      timezone = 1;
      realm_id = 1;
    }
    ∷ []

realm_list_packet_size_example :
    (body : List ℕ) × (realm_list_packet bincode shown_realms
      ≡ 0x10 ∷ bincode.put_int 2 (length body) ++ body)
unfolding realms_size put_realm
realm_list_packet_size_example = realm_list_packet_size bincode shown_realms (omega arith)
