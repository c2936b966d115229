-- ===== src/AuthServer/Server/Fair.antt =====
-- No connection holds the server up: one that gets its turns comes to its end, whatever else happens
-- between them.
use mathlib.Core.Path.{subst}
use azerust.Prelude.{
  ℕ, suc, ◌<◌, ◌≡◌, ◌⊎◌, inl, inr, refl, ap, sym, ◌∙◌, List, [], ◌∷◌, ◌++◌, arith,
}
use azerust.Prelude.Outcome.{Outcome, ok, err, panic, bind_ok}
use azerust.Bincode.{Bincode}
use azerust.Crypto.{Crypto}
use azerust.Utils.{flatten-ok}
use azerust.Game.Accounts.{AccountService}
use azerust.Game.Realms.{RealmList}
use azerust.AuthServer.Stream.{Stream, bytes_left}
use azerust.AuthServer.Handlers.{
  RequestState, start, connect_challenge, reconnect_challenge, realmlist, rejected, ServerError,
  Context,
}
use azerust.AuthServer.Connection.{round}
use azerust.AuthServer.Connection.Termination.{round_left}
use azerust.AuthServer.Server.{
  accepting, connected, Running, Event, arrives, connection_turn, datagram, update_turn, finish,
  after, update, go_on, turn, step, run,
}
use azerust.AuthServer.Server.Runs.{unless_panic_ok}
use azerust.AuthServer.Server.Serving.{context}

-- How many of the events are turns of the connection.
unfoldable pub turns : List Event → ℕ
turns [] = 0
turns (connection_turn ∷ events) = suc (turns events)
turns (arrives incoming ∷ events) = turns events
turns (datagram now bytes ∷ events) = turns events
turns (update_turn now ∷ events) = turns events

module _ {A R : Type 0} (c : Crypto) (e : Bincode) (accounts : AccountService A)
    (realms : RealmList R) where
  -- Among these events the server comes to a point where it accepts the next connection.
  pub record Freed (events : List Event) (r : Running A R) : Type 0 where
    pub before : List Event
    pub after : List Event
    pub between : Running A R
    pub parts : before ++ after ≡ events
    pub reached : run c e accounts realms before r ≡ ok between
    pub free : between.phase ≡ accepting

  later :
      (event : Event) (rest : List Event) (r b : Running A R)
      → step c e accounts realms event r ≡ ok b
      → Freed rest b
      → Freed (event ∷ rest) r
  unfolding run
  later event rest r b first freed = record {
    before = event ∷ freed.before;
    after = freed.after;
    between = freed.between;
    parts = ap (λ (l : List Event). event ∷ l) freed.parts;
    reached = rw first freed.reached;
    free = freed.free;
  }

  at_once :
      (event : Event) (rest : List Event) (r b : Running A R)
      → step c e accounts realms event r ≡ ok b
      → b.phase ≡ accepting
      → Freed (event ∷ rest) r
  unfolding run
  at_once event rest r b first free = record {
    before = event ∷ [];
    after = rest;
    between = b;
    parts = refl;
    reached = rw first refl;
    free = free;
  }

  same_phase :
      (a b : Running A R)
      → ◌≡◌ {A = Outcome ServerError (Running A R)} (ok a) (ok b)
      → b.phase ≡ a.phase
  same_phase a b h = cc

  finish_free :
      (result : Outcome ServerError (Unit {0})) (x : Context A R) (r b : Running A R)
      → finish c e accounts realms result x r ≡ ok b
      → b.phase ≡ accepting
  unfolding finish
  finish_free (ok _) x r b h = same_phase _ b h
  finish_free (err _) x r b h = same_phase _ b h
  finish_free panic x r b h = cc

  after_phase :
      (o : Outcome ServerError RequestState) (x : Context A R) (r b : Running A R)
      → after c e accounts realms o x r ≡ ok b
      → (b.phase ≡ accepting)
        ⊎ ((st : RequestState) × (o ≡ ok st) × (b.phase ≡ connected st x.stream))
  unfolding after
  after_phase (ok (rejected command reason)) x r b h = inl (finish_free _ _ r b h)
  after_phase (ok start) x r b h = inr (start, refl, same_phase _ b h)
  after_phase (ok (connect_challenge token)) x r b h =
      inr (connect_challenge token, refl, same_phase _ b h)
  after_phase (ok (reconnect_challenge token)) x r b h =
      inr (reconnect_challenge token, refl, same_phase _ b h)
  after_phase (ok realmlist) x r b h = inr (realmlist, refl, same_phase _ b h)
  after_phase (err error) x r b h = inl (finish_free (err error) x r b h)
  after_phase panic x r b h = cc

  go_on_phase :
      (st : RequestState) (stream : Stream) (r b : Running A R)
      → go_on c e accounts realms (connected st stream) r ≡ ok b
      → (b.phase ≡ accepting)
        ⊎ ((st' : RequestState) × (stream' : Stream) × (b.phase ≡ connected st' stream')
            × (bytes_left stream'.input < bytes_left stream.input))
  unfolding go_on
  go_on_phase st stream r b h =
      let (o, x) = round c e accounts realms st (context c e accounts realms stream r) in
      elim (after_phase o x r b h) [
        | inl free ↦ inl free
        | inr (st', same, phase) ↦ inr (
          st',
          x.stream,
          phase,
          round_left c e accounts realms st st' (context c e accounts realms stream r) x
              (λ i. (same i, x)),
        )
      ]

  -- What follows an event, given what follows each later state.
  abbrev Onward : List Event → Type 0
  Onward events =
      (st : RequestState) (stream : Stream) (r r' : Running A R)
      → r.phase ≡ connected st stream
      → bytes_left stream.input < turns events
      → run c e accounts realms events r ≡ ok r'
      → Freed events r

  own_turn : (rest : List Event) → Onward rest → Onward (connection_turn ∷ rest)
  unfolding run step turn turns
  own_turn rest more st stream r r' phase enough h =
      let (b, first, h') =
        bind_ok (step c e accounts realms connection_turn r) (run c e accounts realms rest) r' h in
      elim (go_on_phase st stream r b
        (subst (λ p. go_on c e accounts realms p r ≡ ok b) phase (flatten-ok _ b first))) [
          | inl free ↦ at_once connection_turn rest r b first free
          | inr (st', stream', phase', less) ↦
              later connection_turn rest r b first (more st' stream' b r' phase' (omega arith) h')
        ]

  other_turn :
      (event : Event) (rest : List Event)
      → ((r b : Running A R) → turn c e accounts realms event r ≡ ok b → b.phase ≡ r.phase)
      → turns (event ∷ rest) ≡ turns rest
      → Onward rest
      → Onward (event ∷ rest)
  unfolding run step
  other_turn event rest keeps same more st stream r r' phase enough h =
      let (b, first, h') =
        bind_ok (step c e accounts realms event r) (run c e accounts realms rest) r' h in
      later event rest r b first
        (more st stream b r' (keeps r b (flatten-ok _ b first) ∙ phase) (rw same at enough) h')

  -- A connection that gets more turns than it has bytes to come gives way to the next one, whatever
  -- connections, datagrams and updates come between its turns, as long as the server runs.
  pub connection_gives_way :
      (events : List Event) (st : RequestState) (stream : Stream) (r r' : Running A R)
      → r.phase ≡ connected st stream
      → bytes_left stream.input < turns events
      → run c e accounts realms events r ≡ ok r'
      → Freed events r
  unfolding turns turn update
  connection_gives_way [] = λ st stream r r' phase enough h. absurd (omega arith)
  connection_gives_way (connection_turn ∷ rest) = own_turn rest (connection_gives_way rest)
  connection_gives_way (arrives incoming ∷ rest) =
      other_turn (arrives incoming) rest (λ r b h. same_phase _ b h) refl
        (connection_gives_way rest)
  connection_gives_way (datagram now bytes ∷ rest) =
      other_turn (datagram now bytes) rest (λ r b h. same_phase _ b h) refl
        (connection_gives_way rest)
  connection_gives_way (update_turn now ∷ rest) =
      other_turn (update_turn now) rest
        (λ r b h.
          sym (ap (λ (r : Running A R). r.phase) (unless_panic_ok c e accounts realms _ _ b h)))
        refl (connection_gives_way rest)
