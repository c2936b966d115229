-- ===== src/AuthServer/Server/Serving.antt =====
-- The turns of a connection are the rounds of `connect_loop`.
use azerust.Prelude.{ℕ, zero, suc, ◌≡◌, refl, ◌∙◌, Option, some, [], replicate, ap}
use native.Mathlib.Nat.{le_refl}
use azerust.Prelude.Outcome.{Outcome, ok, err, panic, ◌>>=◌}
use azerust.Bincode.{Bincode}
use azerust.Crypto.{Crypto}
use azerust.Utils.{TaskError, flatten}
use azerust.Game.Accounts.{AccountService}
use azerust.Game.Realms.{RealmList}
use azerust.AuthServer.Stream.{Stream, bytes_left, write_all}
use azerust.AuthServer.Packets.{put_reply}
use azerust.AuthServer.Handlers.{
  RequestState, start, connect_challenge, reconnect_challenge, realmlist, rejected, ServerError,
  Context, on_stream,
}
use azerust.AuthServer.Connection.{round, connect_loop, after_round}
use azerust.AuthServer.Connection.Termination.{connect_loop_total}
use azerust.AuthServer.Server.{
  connected, Running, connection_turn, with_services, finish, after, go_on, turn, step, run,
}

module _ {A R : Type 0} (c : Crypto) (e : Bincode) (accounts : AccountService A)
    (realms : RealmList R) where
  -- what a connection of the server works on
  abbrev pub context : Stream → Running A R → Context A R
  context stream r = record {
    stream = stream;
    accounts = r.server.accounts;
    realms = r.server.realms;
  }

  last_turn :
      (o : Outcome (TaskError ServerError) (Running A R)) → (o >>= run c e accounts realms []) ≡ o
  unfolding run
  last_turn (ok r) = refl
  last_turn (err error) = refl
  last_turn panic = refl

  finish_same :
      (result : Outcome ServerError (Unit {0})) (x x' : Context A R) (st : RequestState)
      (r : Running A R)
      → finish c e accounts realms result x'
          (with_services c e accounts realms x (connected st x.stream) r)
        ≡ finish c e accounts realms result x' r
  unfolding finish
  finish_same (ok _) x x' st r = refl
  finish_same (err _) x x' st r = refl
  finish_same panic x x' st r = refl

  finish_phase :
      (result : Outcome ServerError (Unit {0})) (x : Context A R) (st : RequestState)
      (stream : Stream) (r : Running A R)
      → finish c e accounts realms result x (record r { phase = connected st stream })
        ≡ finish c e accounts realms result x r
  unfolding finish
  finish_phase (ok _) x st stream r = refl
  finish_phase (err _) x st stream r = refl
  finish_phase panic x st stream r = refl

  abbrev Served :
      RequestState → Stream → Running A R → Outcome ServerError (Unit {0}) → Context A R → Type 0
  Served st stream r result x' =
      (n : ℕ) × (run c e accounts realms (replicate n connection_turn)
          (record r { phase = connected st stream })
        ≡ flatten (finish c e accounts realms result x' r))

  abbrev Continued :
      Outcome ServerError RequestState
      → Context A R
      → Running A R
      → Outcome ServerError (Unit {0})
      → Context A R
      → Type 0
  Continued o x r result x' =
      (n : ℕ) × ((flatten (after c e accounts realms o x r)
          >>= run c e accounts realms (replicate n connection_turn))
        ≡ flatten (finish c e accounts realms result x' r))

  -- a round after which the connection goes on in a state
  goes_on :
      (st : RequestState) (x x' : Context A R) (r : Running A R)
      (result : Outcome ServerError (Unit {0}))
      → Served st x.stream (with_services c e accounts realms x (connected st x.stream) r) result x'
      → (n : ℕ) × (run c e accounts realms
            (replicate n connection_turn)
            (with_services c e accounts realms x (connected st x.stream) r)
          ≡ flatten (finish c e accounts realms result x' r))
  goes_on st x x' r result (n, p) = (n, p ∙ ap flatten (finish_same result x x' st r))

  -- an error, or a panic, which ends the connection
  finished :
      (o : Outcome ServerError (Unit {0})) (x x' : Context A R) (r : Running A R)
      (result : Outcome ServerError (Unit {0})) {m : Outcome ServerError (Running A R)}
      → m ≡ finish c e accounts realms o x r
      → ◌≡◌ {A = Option (Outcome ServerError (Unit {0}) × Context A R)}
          (some (o, x))
          (some (result, x'))
      → (flatten m >>= run c e accounts realms [])
        ≡ flatten (finish c e accounts realms result x' r)
  finished o x x' r result same h =
      let ends : ◌≡◌ {A = Outcome ServerError (Unit {0}) × Context A R} (o, x) (result, x') = cc in
      last_turn _
      ∙ ap flatten same
      ∙ ap
          (λ (p : Outcome ServerError (Unit {0}) × Context A R).
            flatten (finish c e accounts realms p.0 p.1 r))
          ends

  after-Served :
      (fuel : ℕ) (o : Outcome ServerError RequestState) (x x' : Context A R) (r : Running A R)
      (result : Outcome ServerError (Unit {0}))
      → ((st : RequestState) (r : Running A R)
          → connect_loop c e accounts realms fuel st (context x.stream r) ≡ some (result, x')
          → Served st x.stream r result x')
      → after_round c e accounts realms (connect_loop c e accounts realms fuel) o x
        ≡ some (result, x')
      → Continued o x r result x'
  unfolding after_round after
  after-Served fuel (ok (rejected command reason)) x x' r result more h =
      let same : on_stream (write_all (put_reply e command reason)) x ≡ (result, x') = cc in
      (0, last_turn _ ∙ rw same refl)
  after-Served fuel (ok start) x x' r result more h = goes_on start x x' r result (more start _ h)
  after-Served fuel (ok (connect_challenge token)) x x' r result more h =
      goes_on (connect_challenge token) x x' r result (more (connect_challenge token) _ h)
  after-Served fuel (ok (reconnect_challenge token)) x x' r result more h =
      goes_on (reconnect_challenge token) x x' r result (more (reconnect_challenge token) _ h)
  after-Served fuel (ok realmlist) x x' r result more h =
      goes_on realmlist x x' r result (more realmlist _ h)
  after-Served fuel (err error) x x' r result more h =
      (0, finished (err error) x x' r result (unfold finish in refl) h)
  after-Served fuel panic x x' r result more h =
      (0, finished panic x x' r result (unfold finish in refl) h)

  loop-Served :
      (fuel : ℕ) (st : RequestState) (stream : Stream) (x' : Context A R) (r : Running A R)
      (result : Outcome ServerError (Unit {0}))
      → connect_loop c e accounts realms fuel st (context stream r) ≡ some (result, x')
      → Served st stream r result x'
  unfolding connect_loop run step turn go_on
  loop-Served zero st stream x' r result h = cc
  loop-Served (suc fuel) st stream x' r result h =
      let (o, x) = round c e accounts realms st (context stream r) in
      let (n, p) =
        after-Served fuel o x x' (record r { phase = connected st stream }) result
          (λ st' r'. loop-Served fuel st' x.stream x' r' result) h in
      (suc n, p ∙ ap flatten (finish_phase result x' st stream r))

  -- A connection is served to its end by finitely many turns, and what it does is what
  -- `connect_loop` does with enough fuel: the server then goes on with the connections that are
  -- waiting, unless the connection panicked, which ends it.
  pub connection_served :
      (st : RequestState) (stream : Stream) (r : Running A R)
      → (result : Outcome ServerError (Unit {0})) × (x : Context A R) × (n : ℕ) × (connect_loop c e
            accounts realms
            (suc (bytes_left stream.input))
            st
            (context stream r)
          ≡ some (result, x))
        × (run c e accounts realms
              (replicate n connection_turn)
              (record r { phase = connected st stream })
            ≡ flatten (finish c e accounts realms result x r))
  connection_served st stream r =
      let fuel = suc (bytes_left stream.input) in
      let (result, x, ends) =
        connect_loop_total c e accounts realms fuel st (context stream r) (le_refl _) in
      let (n, served) = loop-Served fuel st stream x r result ends in (result, x, n, ends, served)
