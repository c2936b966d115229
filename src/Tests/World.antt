-- ===== src/Tests/World.antt =====
-- The world server with a small cipher, over the concrete database of characters.
use azerust.Prelude.{
  ℕ, ◌≡◌, ◌↔◌, refl, some, none, true, false, List, [], ◌∷◌, ◌++◌, arith, length, bytes_eq,
}
use azerust.Prelude.Maps.{find}
use azerust.Prelude.Text.{codes}
use azerust.Prelude.Outcome.{ok}
use azerust.Bincode.{deserialize, finish}
use azerust.MysqlCharacters.{service}
use azerust.MysqlCharacters.Roster.{created}
use azerust.Protocol.World.{
  opcode_code, cmsg_ping, cmsg_char_enum, smsg_pong, smsg_realm_split, char_create_success,
  char_delete_success,
}
use azerust.Protocol.HeaderCrypto.{HeaderCrypto}
use azerust.Protocol.Packets.{
  NewCharacter, ClientPacket, ping, char_enum, character_create, character_delete, AuthSession,
}
use azerust.Protocol.Packets
use azerust.WorldServer.Readers.{get_ping}
use azerust.WorldServer.Decode.{Zlib, read_packet}
use azerust.WorldServer.Framing.{Incoming, read_packets}
use azerust.WorldServer.Framing.RoundTrip.{Sent, cipher_of, wire, wire_end, read_packets-wire}
use azerust.Prelude.Outcome.{Outcome}
use azerust.Prelude.Exec.{pure, ◌>>=◌}
use azerust.Game.Ids.{character_id_from, entity_code}
use azerust.MysqlCharacters.{Db}
use azerust.MysqlAuth.Db.{all_where}
use azerust.WorldServer.Framing.{packets_of, next_packet}
use azerust.WorldServer.Framing.Loop.{packets_of_loop}
use azerust.WorldServer.ServerPackets.{SessionError, packet_of}
use azerust.WorldServer.Session.{Clock, Session, send_packet}
use azerust.WorldServer.Session.Delivery.{Frame, send_all, client_read, send_all-delivers}
use azerust.WorldServer.Session.Owner.{owner}
use azerust.WorldServer.Names.{answer, name_problem, IsProper, answer-success}
use azerust.WorldServer.World.{World, Handling, handle_packet, handle_next, new_character}
use azerust.WorldServer.World.Isolation.{handle_next-Isolated}
use azerust.WorldServer.World.Creation.{handle_create_lem, handle_delete_lem}
use mathlib.Core.Option
use azerust.Tests.Instances.{bincode}
use azerust.Tests.Headers.{ciphers}
use azerust.Tests.Characters.{tables, thrall}

abbrev pub zlib : Zlib
zlib = record { inflate = λ x. some x; deflate = λ x. x; inflate-deflate = λ x. refl }

abbrev keys : HeaderCrypto ciphers
keys = record { encrypting = true; decrypting = false }

abbrev sent : List Sent
sent =
    record { code = cmsg_ping; body = 7 ∷ 0 ∷ 0 ∷ 0 ∷ 1 ∷ 1 ∷ 0 ∷ 0 ∷ []; parsed = ping 7 257 }
    ∷ record { code = cmsg_char_enum; body = []; parsed = char_enum }
    ∷ []

abbrev incoming : Incoming ciphers bincode zlib
incoming = record {
  reader = wire ciphers bincode zlib (some false) sent ∷ [];
  encryption = some keys;
}

read_packets-wire_example :
    ((read_packets ciphers bincode zlib incoming).0 ≡ ok (ping 7 257 ∷ char_enum ∷ []))
    × (cipher_of ciphers bincode zlib (read_packets ciphers bincode zlib incoming).1.encryption
        ≡ wire_end ciphers bincode zlib (some false) sent)
unfolding read_packet deserialize finish get_ping
read_packets-wire_example =
    read_packets-wire ciphers bincode zlib incoming sent []
      ((omega arith, refl), ((omega arith, refl), tt)) (omega arith) (omega arith) refl

abbrev unread : List ℕ
unread = 0 ∷ 6 ∷ 0x50 ∷ 0 ∷ 0 ∷ 0 ∷ 1 ∷ 2 ∷ []

abbrev unfinished : Incoming ciphers bincode zlib
unfinished = record { reader = unread ∷ []; encryption = none }

packets_of_loop_example :
    packets_of ciphers bincode zlib 8 unread none
    ≡ (next_packet ciphers bincode zlib unread >>= λ p.
          packets_of ciphers bincode zlib (length p.1) p.1 >>= λ packets. pure (p.0 ∷ packets))
        none
packets_of_loop_example =
    packets_of_loop ciphers bincode zlib 0 (6 ∷ 0x50 ∷ 0 ∷ 0 ∷ 0 ∷ 1 ∷ 2 ∷ []) none

abbrev pub clock : Clock
clock = record { instant = 5; unix = some 1000 }

abbrev pub player : Session ciphers
player = record {
  client_id = 1;
  client = record { id = 1; account = some 1 };
  stream = record { output = []; limits = [] };
  encryption = keys;
  latency = 0;
  timeout = 0;
  addons = [];
  character = none;
}

abbrev frames : List Frame
frames =
    record { packet = Packets.pong 7; code = smsg_pong; body = 7 ∷ 0 ∷ 0 ∷ 0 ∷ [] }
    ∷ record {
      packet = Packets.realm_split 1;
      code = smsg_realm_split;
      body = 1 ∷ 0 ∷ 0 ∷ 0 ∷ 0 ∷ 0 ∷ 0 ∷ 0 ∷ codes "01/01/01" ++ 0 ∷ [];
    }
    ∷ []

abbrev sending : Outcome SessionError (Unit {0}) × Session ciphers
sending = send_all ciphers bincode clock (Packets.pong 7 ∷ Packets.realm_split 1 ∷ []) player

send_all-delivers_example :
    (sending.0 ≡ ok tt)
    × (bytes : List ℕ) × (sending.1.stream.output ≡ [] ++ bytes)
    × (client_read ciphers 2 true bytes
        ≡ some (
            (0x1DD, 7 ∷ 0 ∷ 0 ∷ 0 ∷ [])
            ∷ (0x38B, 1 ∷ 0 ∷ 0 ∷ 0 ∷ 0 ∷ 0 ∷ 0 ∷ 0 ∷ codes "01/01/01" ++ 0 ∷ [])
            ∷ []))
unfolding opcode_code packet_of
send_all-delivers_example =
    send_all-delivers ciphers bincode clock frames player
      ((refl, omega arith), ((refl, omega arith), tt)) refl

abbrev other : Session ciphers
other = record player { client_id = 2; client = record { id = 2; account = some 2 } }

abbrev world : World ciphers Db
world = record {
  sessions = (1, player) ∷ (2, other) ∷ [];
  receiver = (1, ping 7 3) ∷ (2, char_enum) ∷ [];
  characters = tables;
}

abbrev handled : World ciphers Db
handled = (handle_next ciphers bincode (service bytes_eq) clock world).1

handle_next-Isolated_example :
    (handled.receiver ≡ (2, char_enum) ∷ [])
    × (find 2 handled.sessions ≡ some other)
    × (Option.map (owner ciphers bincode) (find 2 handled.sessions)
        ≡ some (2, record { id = 2; account = some 2 }))
unfolding find
handle_next-Isolated_example =
    handle_next-Isolated ciphers bincode (service bytes_eq) clock world 1 (ping 7 3)
      ((2, char_enum) ∷ []) 2 refl

abbrev jaina : NewCharacter
jaina = record {
  name = codes "Jaina";
  race = 1;
  class = 8;
  gender = 1;
  skin_color = 0;
  face = 0;
  hair_style = 0;
  hair_color = 0;
  facial_style = 0;
}

abbrev handling : Handling ciphers Db
handling = record { session = player; characters = tables }

handle_create_lem_example :
    handle_packet ciphers bincode (service bytes_eq) clock (character_create jaina) handling ≡ (
      (send_packet ciphers bincode clock (Packets.character_create char_create_success) player).0,
      record {
        session =
            (send_packet ciphers bincode clock
              (Packets.character_create char_create_success)
              player).1;
        characters = created 1 (new_character jaina) tables;
      },
    )
unfolding answer name_problem all_where bytes_eq
handle_create_lem_example =
    handle_create_lem ciphers bincode bytes_eq clock jaina 1 handling refl refl

handle_delete_lem_example :
    handle_packet ciphers bincode (service bytes_eq) clock (character_delete 78) handling ≡ (
      (send_packet ciphers bincode clock (Packets.character_delete char_delete_success) player).0,
      record {
        session =
            (send_packet ciphers bincode clock
              (Packets.character_delete char_delete_success)
              player).1;
        characters = record tables { characters = thrall ∷ [] };
      },
    )
unfolding character_id_from entity_code all_where
handle_delete_lem_example = handle_delete_lem ciphers bincode bytes_eq clock 78 handling refl refl

answer-success_example :
    (answer true (codes "Jaina") ≡ char_create_success) ↔ ((true ≡ true) × IsProper (codes "Jaina"))
answer-success_example = answer-success true (codes "Jaina")
