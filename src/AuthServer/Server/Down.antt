-- ===== src/AuthServer/Server/Down.antt =====
-- What ends the server: a panic in any of its connections.
use azerust.Prelude.{ℕ, ◌≡◌, ◌<◌, Bool, if◌then◌else◌, List, ◌∷◌, ◌++◌}
use azerust.Prelude.Outcome.{err}
use azerust.Bincode.{Bincode}
use azerust.Crypto.{Crypto}
use azerust.Utils.{join_failed}
use azerust.Game.Accounts.{AccountService}
use azerust.Game.Realms.{RealmList}
use azerust.AuthServer.Stream.{Stream}
use azerust.AuthServer.Packets.{ConnectRequest}
use azerust.AuthServer.ClientPackets.{put_connect_request}
use azerust.AuthServer.Message.RoundTrip.{IsConnectRequest}
use azerust.AuthServer.Handlers.{start}
use azerust.AuthServer.Connection.Arrival.{long_name_round}
use azerust.AuthServer.Server.{
  Incoming, accepted, accepting, Running, Event, connection_turn, accept, go_on, after, turn, step,
  run,
}

module _ {A R : Type 0} (c : Crypto) (e : Bincode) (accounts : AccountService A)
    (realms : RealmList R) where
  -- A client of build 12340 whose first message is a request of a login (0) or a reconnect (2), comes
  -- whole in one segment, and names more than 16 bytes of user name, ends the whole server when its
  -- turn comes: neither the connections behind it nor any later event is served.
  pub long_name_stops_server :
      (again : Bool) (request : ConnectRequest) (left : List ℕ) (rest : List (List ℕ))
      (stream : Stream) (others : List Incoming) (later : List Event) (r : Running A R)
      → IsConnectRequest e request
      → stream.input ≡ ((if again then 2 else 0) ∷ put_connect_request e request ++ left) ∷ rest
      → request.build ≡ 12340
      → 16 < request.identifier_length
      → r.phase ≡ accepting
      → r.backlog ≡ accepted stream ∷ others
      → run c e accounts realms (connection_turn ∷ connection_turn ∷ later) r ≡ err join_failed
  unfolding run step turn go_on accept after
  long_name_stops_server again request left rest stream others later r valid h build long at first =
      rw (
        at,
        first,
        long_name_round c e accounts realms again request left rest start
            (record { stream = stream; accounts = r.server.accounts; realms = r.server.realms })
            valid h build long,
      )
