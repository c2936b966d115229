-- ===== src/Tests/Server.antt =====
-- The auth server as a whole, on concrete connections and datagrams.
use azerust.Prelude.{
  ℕ, ◌-◌, ◌/◌, ◌≡◌, refl, List, [], ◌∷◌, ◌++◌, some, none, true, ltb, if◌then◌else◌, replicate, suc,
  arith,
}
use azerust.Prelude.Outcome.{Outcome, ok, err}
use azerust.Utils.{TaskError, join_failed, flatten}
use azerust.Game.Realms.{offline, recommended, realm_flags_code}
use azerust.MysqlAuth.Db.{Db}
use azerust.MysqlAuth.Accounts
use azerust.MysqlAuth.Realms
use azerust.MysqlAuth.Realms.{Service}
use azerust.MysqlAuth.Realms.Status.{flags_in, update_status_calm}
use azerust.Protocol.Auth.{auth_command_from}
use azerust.AuthServer.Stream.{Stream, bytes_left, read_exact}
use azerust.AuthServer.Message.{read_packet}
use azerust.AuthServer.ClientPackets.{put_connect_request}
use azerust.AuthServer.Handlers.{start, ServerError, Context}
use azerust.AuthServer.Connection.{round, connect_loop}
use azerust.Bincode.{deserialize}
use azerust.AuthServer.Heartbeats.{receive}
use azerust.AuthServer.Heartbeats.Liveness.{last_seen}
use azerust.AuthServer.Server.{
  accepted, failed, connected, closed, Running, Event, arrives, connection_turn, datagram,
  update_turn, finish, step, run, started,
}
use azerust.AuthServer.Server.Beats.{flags_follow_heartbeats}
use azerust.AuthServer.Server.Down.{long_name_stops_server}
use azerust.AuthServer.Server.Closed.{accept_error_closes}
use azerust.AuthServer.Server.Fair.{turns, Freed, connection_gives_way}
use azerust.AuthServer.Server.Serving.{connection_served, context}
use azerust.WorldServer.Heartbeat.{heartbeat}
use azerust.Tests.Instances.{crypto, bincode, schema}
use azerust.Tests.Mysql.{db, opened_list}
use azerust.Tests.Auth.{long_request, x0}

abbrev stream : List (List ℕ) → Stream
stream input = record { input = input; output = []; writes_left = 9 }

abbrev server : Running Db Service
server = started db opened_list

abbrev ran : List Event → Running Db Service → Outcome (TaskError ServerError) (Running Db Service)
ran = run crypto bincode (Accounts.service crypto schema) (Realms.service schema)

abbrev beat : Event
beat = datagram 60000 (some (heartbeat bincode 1 0))

abbrev noted : Running Db Service
noted = record server {
  server = record server.server {
    heartbeats = record { buffer = 0 ∷ 1 ∷ 0 ∷ 0 ∷ 0 ∷ 0 ∷ []; seen = (1, 60000) ∷ [] };
  };
}

flags_follow_heartbeats_example :
    (r' : Running Db Service) × (step crypto bincode
        (Accounts.service crypto schema)
        (Realms.service schema)
        (update_turn 61000)
        noted
      ≡ ok r')
    × ((id : ℕ)
        → flags_in id r'.server.realms.db.realmlist ≡ (elim (last_seen id ((1, 60000) ∷ [])) [
          | none ↦ flags_in id db.realmlist
          | some t ↦
              some (realm_flags_code (if ltb 15 ((61000 - t) / 1000) then offline else recommended))
        ]))
unfolding receive deserialize heartbeat
flags_follow_heartbeats_example =
    flags_follow_heartbeats crypto bincode (Accounts.service crypto schema) schema (beat ∷ []) db
      opened_list 61000 noted (unfold run step in refl) refl

abbrev long_stream : Stream
long_stream = stream ((2 ∷ put_connect_request bincode long_request ++ []) ∷ [])

abbrev waiting : Running Db Service
waiting = record server { backlog = accepted long_stream ∷ accepted x0.stream ∷ [] }

long_name_stops_server_example :
    ran (connection_turn ∷ connection_turn ∷ connection_turn ∷ []) waiting ≡ err join_failed
long_name_stops_server_example =
    long_name_stops_server crypto bincode (Accounts.service crypto schema) (Realms.service schema)
      true long_request [] [] long_stream (accepted x0.stream ∷ []) (connection_turn ∷ []) waiting
      (ground arith) refl refl (omega arith) refl refl

abbrev broken : Running Db Service
broken = record server { backlog = failed ∷ accepted x0.stream ∷ [] }

accept_error_closes_example :
    (r' : Running Db Service) × (ran (connection_turn ∷ connection_turn ∷ []) broken ≡ ok r')
    × (r'.phase ≡ closed)
    × (r'.server.accounts ≡ db)
accept_error_closes_example =
    accept_error_closes crypto bincode (Accounts.service crypto schema) (Realms.service schema)
      (accepted x0.stream ∷ []) (connection_turn ∷ []) broken (update_status_calm schema) refl refl

connection_served_example :
    (result : Outcome ServerError (Unit {0})) × (x : Context Db Service) × (n : ℕ) × (connect_loop
        crypto bincode
        (Accounts.service crypto schema)
        (Realms.service schema)
        (suc (bytes_left x0.stream.input))
        start
        (context crypto bincode
          (Accounts.service crypto schema)
          (Realms.service schema)
          x0.stream
          server)
      ≡ some (result, x))
    × (ran (replicate n connection_turn) (record server { phase = connected start x0.stream })
        ≡ flatten (
            finish crypto bincode
              (Accounts.service crypto schema)
              (Realms.service schema)
              result
              x
              server))
connection_served_example =
    connection_served crypto bincode (Accounts.service crypto schema) (Realms.service schema) start
      x0.stream server

-- a connection with a byte that is no command, which others arrive beside
abbrev bad_stream : Stream
bad_stream = stream ((9 ∷ []) ∷ [])

abbrev mixed : List Event
mixed = arrives (accepted bad_stream) ∷ connection_turn ∷ arrives failed ∷ connection_turn ∷ []

abbrev held : Running Db Service
held = record server { phase = connected start bad_stream }

abbrev gone_on : Running Db Service
gone_on = record held { backlog = failed ∷ [] }

connection_gives_way_example :
    Freed crypto bincode (Accounts.service crypto schema) (Realms.service schema) mixed held
unfolding round read_packet read_exact auth_command_from
connection_gives_way_example =
    connection_gives_way crypto bincode (Accounts.service crypto schema) (Realms.service schema)
      mixed start bad_stream held gone_on refl (unfold turns in omega arith)
      (unfold run step in refl)
