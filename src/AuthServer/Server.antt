-- ===== src/AuthServer/Server.antt =====
-- services/auth/src/authserver.rs: `AuthServer::authentication`, which serves one connection after
-- another, and `start`, which runs it beside the two tasks of the heartbeats. The tasks take turns: a
-- turn is one round of `connect_loop`, one datagram or one update.
pub mod Runs
pub mod Beats
pub mod Down
pub mod Serving
pub mod Fair
pub mod Closed
use azerust.Prelude.{ℕ, Option, List, [], ◌∷◌, ◌++◌, replicate}
use azerust.Prelude.Outcome.{Outcome, ok, err, panic, ◌>>=◌}
use azerust.Bincode.{Bincode}
use azerust.Crypto.{Crypto}
use azerust.Utils.{TaskError, flatten}
use azerust.Game.Accounts.{AccountService}
use azerust.Game.Realms.{RealmList, RealmListError}
use azerust.AuthServer.Stream.{Stream, write_all}
use azerust.AuthServer.Packets.{put_reply}
use azerust.AuthServer.Handlers.{RequestState, start, rejected, ServerError, Context, on_stream}
use azerust.AuthServer.Connection.{round}
use azerust.AuthServer.Heartbeats.{Heartbeats, receive, tick, updates}

-- what the listener gives: a connection, or an error of `accept`
pub data Incoming : Type 0 where
  accepted : Stream → Incoming
  failed : Incoming

-- What `authentication` is at. It has returned when it is `closed`.
pub data Phase : Type 0 where
  accepting : Phase
  connected : RequestState → Stream → Phase
  closed : Phase

pub record AuthServer (A R : Type 0) : Type 0 where
  pub accounts : A
  pub realms : R
  pub heartbeats : Heartbeats

-- The server between two turns, with the connections that the listener holds back.
pub record Running (A R : Type 0) : Type 0 where
  pub server : AuthServer A R
  pub phase : Phase
  pub backlog : List Incoming

pub data Event : Type 0 where
  arrives : Incoming → Event
  connection_turn : Event
  -- a datagram, or a failed `recv`, at some time
  datagram : ℕ → Option (List ℕ) → Event
  update_turn : ℕ → Event

module _ {A R : Type 0} (c : Crypto) (e : Bincode) (accounts : AccountService A)
    (realms : RealmList R) where
  -- the server with what a connection has made of the services
  abbrev pub with_services : Context A R → Phase → Running A R → Running A R
  with_services x phase r = record r {
    server = record r.server { accounts = x.accounts; realms = x.realms };
    phase = phase;
  }

  -- the end of `connect_loop`: an error is only logged
  unfoldable pub finish :
      Outcome ServerError (Unit {0}) → Context A R → Running A R → Outcome ServerError (Running A R)
  finish (ok _) x r = ok (with_services x accepting r)
  finish (err _) x r = ok (with_services x accepting r)
  finish panic x r = panic

  -- what follows a round, as in `connect_loop`
  after :
      Outcome ServerError RequestState
      → Context A R
      → Running A R
      → Outcome ServerError (Running A R)
  unfolding finish
  after (ok (rejected command reason)) x r =
      let (result, x') = on_stream (write_all (put_reply e command reason)) x in finish result x' r
  after (ok state) x r = ok (with_services x (connected state x.stream) r)
  after (err error) x r = finish (err error) x r
  after panic x r = panic

  -- `connections.next()`: an error of `accept` ends the loop
  accept : List Incoming → Running A R → Running A R
  accept [] r = r
  accept (accepted stream ∷ rest) r = record r { phase = connected start stream; backlog = rest }
  accept (failed ∷ rest) r = record r { phase = closed; backlog = rest }

  go_on : Phase → Running A R → Outcome ServerError (Running A R)
  unfolding accept after
  go_on accepting r = ok (accept r.backlog r)
  go_on (connected state stream) r =
      let (result, x) =
        round c e accounts realms state
          (record { stream = stream; accounts = r.server.accounts; realms = r.server.realms }) in
      after result x r
  go_on closed r = ok r

  -- an error of `update_status` is only logged
  pub unless_panic :
      Outcome RealmListError (Unit {0}) → Running A R → Outcome ServerError (Running A R)
  unless_panic (ok _) r = ok r
  unless_panic (err _) r = ok r
  unless_panic panic r = panic

  update : ℕ → Running A R → Outcome ServerError (Running A R)
  unfolding unless_panic
  update now r =
      let (result, _) =
        realms.update_status (updates now r.server.heartbeats.seen) r.server.realms in
      let (heartbeats, realms') = tick realms now r.server.heartbeats r.server.realms in
      unless_panic result
        (record r { server = record r.server { heartbeats = heartbeats; realms = realms' } })

  unfoldable pub turn : Event → Running A R → Outcome ServerError (Running A R)
  unfolding go_on update
  turn (arrives incoming) r = ok (record r { backlog = r.backlog ++ incoming ∷ [] })
  turn connection_turn r = go_on r.phase r
  turn (datagram now bytes) r = ok (record r {
    server = record r.server { heartbeats = receive e now bytes r.server.heartbeats };
  })
  turn (update_turn now) r = update now r

  -- `try_join!` ends with the first task that fails, and the server with it.
  unfoldable pub step : Event → Running A R → Outcome (TaskError ServerError) (Running A R)
  unfolding turn
  step event r = flatten (turn event r)

  unfoldable pub run : List Event → Running A R → Outcome (TaskError ServerError) (Running A R)
  unfolding step
  run [] r = ok r
  run (event ∷ rest) r = step event r >>= run rest

module _ {A R : Type 0} where
  -- `AuthServer::new`
  abbrev pub started : A → R → Running A R
  started a r = record {
    server = record {
      accounts = a;
      realms = r;
      heartbeats = record { buffer = replicate 6 0; seen = [] };
    };
    phase = accepting;
    backlog = [];
  }
