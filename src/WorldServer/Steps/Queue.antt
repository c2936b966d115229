-- ===== src/WorldServer/Steps/Queue.antt =====
-- Whatever happens, no packet waits for a client without a session, and none is read for one.
use azerust.Prelude.{ℕ, ◌≡◌, refl, ap, sym, ◌∙◌, some, none, List, [], ◌∷◌}
use mathlib.Core.Option
use mathlib.Core.Path.{subst}
use azerust.Prelude.Maps.{find, find-insert_same}
use azerust.Prelude.Outcome.{Outcome, Never, ok, err, panic}
use azerust.Crypto.{Crypto}
use azerust.Bincode.{Bincode}
use azerust.Game.Accounts.{AccountService}
use azerust.Game.Characters.{CharacterService}
use azerust.Protocol.HeaderCrypto.{Ciphers}
use azerust.Protocol.Packets.{ClientPacket}
use azerust.WorldServer.Decode.{Zlib}
use azerust.WorldServer.Socket.{Writer, WriteError}
use azerust.WorldServer.Session.{Clock, Session}
use azerust.WorldServer.Session.Owner.{owner}
use azerust.WorldServer.World.{World, handle_next}
use azerust.WorldServer.World.Isolation.{handle_next-Isolated, handle_next_empty}
use azerust.WorldServer.Login.{Server}
use azerust.WorldServer.Clients.{Visit, ConnectError, connect}
use azerust.WorldServer.Clients.Preserved.{IsLoggedIn}
use azerust.WorldServer.Clients.Joined.{
  IsHere, IsServed, IsServed-mono, connect-Served, connect-IsHere,
}
use azerust.WorldServer.Clients.Served.{round-Served}
use azerust.WorldServer.Steps.{
  Phase, idle, greeted, serving, Running, Event, arrives, clients_turn, world_turn, greet, accept,
  left, go_on, worked, arrive, step, Reachable, start, next,
}
use azerust.WorldServer.Steps.Invariant.{OnSome, reachable_lem}

module _ (c : Crypto) (k : Ciphers) (e : Bincode) (z : Zlib) {A C : Type 0}
    (service : AccountService A) (characters : CharacterService C) (realm_id : ℕ)
    (realm_seed : List ℕ) where
  -- what the task of the clients relies on
  abbrev pub IsInPlace : Server k A C → Phase k A C → Type 0
  IsInPlace s idle = Unit {0}
  IsInPlace s (greeted id _ _) = find id s.clients ≡ some (record { id = id; account = none })
  IsInPlace s (serving id _ _) = IsHere k id s.world.sessions

  abbrev Good : Running k A C → Type 0
  Good r = IsServed k r.server.world.receiver r.server.world.sessions × IsInPlace r.server r.phase

  greet-Good :
      (id : ℕ) (reader : List (List ℕ)) (s : Server k A C) (r : Outcome WriteError (Unit {0}))
      (writer : Writer)
      → IsServed k s.world.receiver s.world.sessions
      → find id s.clients ≡ some (record { id = id; account = none })
      → OnSome Good (greet c k e z service characters realm_id realm_seed id reader s (r, writer))
  unfolding greet
  greet-Good id reader s (ok _) writer h known = (h, known)
  greet-Good id reader s (err _) writer h known = tt
  greet-Good id reader s panic writer h known = tt

  arrive-Good :
      (id : ℕ) (challenge : List ℕ) (reader : List (List ℕ)) (writer : Writer) (r : Running k A C)
      (phase : Phase k A C)
      → r.phase ≡ phase
      → Good r
      → OnSome Good (
          arrive c k e z service characters realm_id realm_seed
            (arrives id challenge reader writer)
            r
            phase)
  unfolding arrive accept
  arrive-Good id challenge reader writer r idle at h =
      greet-Good id reader _ _ _ h.0 (find-insert_same id _ r.server.clients)
  arrive-Good id challenge reader writer r (greeted _ _ _) at h = h
  arrive-Good id challenge reader writer r (serving _ _ _) at h = h

  left-Good :
      (id : ℕ) (r : Outcome ConnectError (List ClientPacket)) (x : Visit k A C)
      → IsServed k x.server.world.receiver x.server.world.sessions
      → ((packets : List ClientPacket) → r ≡ ok packets → IsHere k id x.server.world.sessions)
      → OnSome Good (left c k e z service characters realm_id realm_seed id (r, x))
  unfolding left
  left-Good id (ok packets) x h here = (h, here packets refl)
  left-Good id (err _) x h here = (h, tt)
  left-Good id panic x h here = tt

  go_on-Good :
      (clock : Clock) (s : Server k A C) (phase : Phase k A C)
      → IsLoggedIn k e s.world.sessions
      → IsServed k s.world.receiver s.world.sessions
      → IsInPlace s phase
      → OnSome Good (go_on c k e z service characters realm_id realm_seed clock s phase)
  unfolding go_on
  go_on-Good clock s idle logged h place = (h, tt)
  go_on-Good clock s (greeted id writer reader) logged h place =
      let x : Visit k A C = record { server = s; reader = reader } in
      let (r, x') = connect c k e z service characters realm_id realm_seed clock id writer x in
      left-Good id r x'
        (connect-Served c k e z service characters realm_id realm_seed clock id writer x h)
        (λ packets is.
          connect-IsHere c k e z service characters realm_id realm_seed clock id writer packets x x'
            place (λ i. (is i, x')))
  go_on-Good clock s (serving id packets reader) logged h place =
      let x : Visit k A C = record { server = s; reader = reader } in
      let (h', here) =
        round-Served c k e z service characters realm_id realm_seed clock id packets x logged h
          place in
      left-Good id _ _ h' (λ _ _. here)

  worked-Good :
      (r : Running k A C) (o : Outcome Never (Unit {0})) (w : World k C)
      → IsServed k w.receiver w.sessions
      → IsInPlace (record r.server { world = w }) r.phase
      → OnSome Good (worked c k e z service characters realm_id realm_seed r (o, w))
  unfolding worked
  worked-Good r (ok _) w h place = (h, place)
  worked-Good r (err _) w h place = tt
  worked-Good r panic w h place = tt

  -- Sessions with the same owners are there as before.
  same-IsHere :
      (j : ℕ) (m m' : List (ℕ × Session k))
      → Option.map (owner k e) (find j m') ≡ Option.map (owner k e) (find j m)
      → IsHere k j m
      → IsHere k j m'
  same-IsHere j m m' same (s, here) =
      let (t, there, _) =
        (Option.map-eq-some_iff (owner k e) (find j m')).0
          (same ∙ ap (Option.map (owner k e)) here) in
      (t, there)

  same_place :
      (s : Server k A C) (w : World k C) (phase : Phase k A C)
      → ((j : ℕ) → IsHere k j s.world.sessions → IsHere k j w.sessions)
      → IsInPlace s phase
      → IsInPlace (record s { world = w }) phase
  same_place s w idle keeps place = tt
  same_place s w (greeted _ _ _) keeps place = place
  same_place s w (serving id _ _) keeps place = keeps id place

  world-Good :
      (clock : Clock) (r : Running k A C) (queue : List (ℕ × ClientPacket))
      → r.server.world.receiver ≡ queue
      → Good r
      → OnSome Good (
          worked c k e z service characters realm_id realm_seed r
            (handle_next k e characters clock r.server.world))
  world-Good clock r [] empty (h, place) =
      subst (λ p. OnSome Good (worked c k e z service characters realm_id realm_seed r p))
        (sym (handle_next_empty k e characters clock r.server.world empty))
        (worked-Good r (ok tt) r.server.world h place)
  world-Good clock r ((id, packet) ∷ rest) queued (h, place) =
      let w = r.server.world in
      let w' = (handle_next k e characters clock w).1 in
      let isolated =
        λ (j : ℕ). handle_next-Isolated k e characters clock w id packet rest j queued in
      let keeps = λ (j : ℕ). same-IsHere j w.sessions w'.sessions (isolated j).2 in
      worked-Good r _ w'
        (subst (λ q. IsServed k q w'.sessions) (sym (isolated 0).0)
          (IsServed-mono k rest w.sessions w'.sessions keeps
            (subst (λ q. IsServed k q w.sessions) queued h).1))
        (same_place r.server w' r.phase keeps place)

  step-Good :
      (event : Event) (r : Running k A C)
      → IsLoggedIn k e r.server.world.sessions
      → Good r
      → OnSome Good (step c k e z service characters realm_id realm_seed event r)
  unfolding step
  step-Good (arrives id challenge reader writer) r logged h =
      arrive-Good id challenge reader writer r r.phase refl h
  step-Good (clients_turn clock) r logged h = go_on-Good clock r.server r.phase logged h.0 h.1
  step-Good (world_turn clock) r logged h = world-Good clock r r.server.world.receiver refl h

  -- However connections arrive, and however the task that serves them and the world take turns, as
  -- long as the server runs: every packet in the queue of the world has the session that it is for,
  -- a client that was only greeted is known without an account, and a connection that is served has
  -- its session.
  pub packets_have_sessions :
      (r : Running k A C)
      → Reachable c k e z service characters realm_id realm_seed r
      → IsServed k r.server.world.receiver r.server.world.sessions × IsInPlace r.server r.phase
  packets_have_sessions _ (start accounts s) = (tt, tt)
  packets_have_sessions _ (next event r r' before goes) = subst (OnSome Good) goes (
      step-Good event r (reachable_lem c k e z service characters realm_id realm_seed r before)
        (packets_have_sessions r before))
