-- ===== src/AuthServer/Server/Beats.antt =====
-- The map of the heartbeats while the server runs, and the flags that an update gives.
use azerust.Prelude.{
  ℕ, ◌-◌, ◌/◌, ◌≡◌, refl, Option, some, none, List, [], ◌∷◌, ◌++◌, ltb, ◌==◌, if◌then◌else◌,
  Bool-cases, inl, inr,
}
use mathlib.Core.Path.{subst}
use azerust.Prelude.Outcome.{Outcome, ok, err, panic}
use azerust.Bincode.{Bincode, deserialize}
use azerust.Crypto.{Crypto}
use azerust.Game.Accounts.{AccountService}
use azerust.Game.Realms.{RealmList, offline, recommended, realm_flags_code}
use azerust.MysqlAuth.Db.{Schema}
use azerust.MysqlAuth.Realms
use azerust.MysqlAuth.Realms.{Service}
use azerust.MysqlAuth.Realms.Status.{flags_in, update_status_lem}
use azerust.AuthServer.Handlers.{RequestState, ServerError, Context}
use azerust.AuthServer.Heartbeats.{Heartbeats, receive, noted, get_heartbeat, filled, tick, updates}
use azerust.AuthServer.Heartbeats.Liveness.{IsMap, last_seen, insert-IsMap, kept-IsMap, tick_flags}
use azerust.AuthServer.Server.Runs.{run_keeps, unless_panic_ok}
use azerust.AuthServer.Server.{
  Incoming, accepted, failed, Phase, accepting, connected, closed, Running, Event, arrives,
  connection_turn, datagram, update_turn, finish, after, accept, go_on, unless_panic, update, turn,
  step, run, started,
}

module _ (e : Bincode) where
  noted-IsMap :
      (now : ℕ) (h : Heartbeats) (beat : Option (ℕ × ℕ × ℕ))
      → IsMap h.seen
      → IsMap (noted e now h beat).seen
  unfolding noted
  noted-IsMap now h none m = m
  noted-IsMap now h (some (tag, realm_id, realm_pop)) m = elim (Bool-cases (tag == 0)) [
    | inl beat ↦ rw beat (insert-IsMap realm_id now h.seen m)
    | inr other ↦ rw other m
  ]

  receive-IsMap :
      (now : ℕ) (bytes : Option (List ℕ)) (h : Heartbeats)
      → IsMap h.seen
      → IsMap (receive e now bytes h).seen
  unfolding receive
  receive-IsMap now none h m = m
  receive-IsMap now (some bytes) h m =
      let buffer = filled bytes h.buffer in
      noted-IsMap now (record h { buffer = buffer }) (deserialize e (get_heartbeat e) buffer) m

module _ {A R : Type 0} (c : Crypto) (e : Bincode) (accounts : AccountService A)
    (realms : RealmList R) where
  finish_beats :
      (result : Outcome ServerError (Unit {0})) (x : Context A R) (r r' : Running A R)
      → finish c e accounts realms result x r ≡ ok r'
      → r.server.heartbeats ≡ r'.server.heartbeats
  unfolding finish
  finish_beats (ok _) x r r' h = cc
  finish_beats (err _) x r r' h = cc
  finish_beats panic x r r' h = cc

  after_beats :
      (result : Outcome ServerError RequestState) (x : Context A R) (r r' : Running A R)
      → after c e accounts realms result x r ≡ ok r'
      → r.server.heartbeats ≡ r'.server.heartbeats
  unfolding after
  after_beats (ok (RequestState.rejected command reason)) x r r' h = finish_beats _ _ r r' h
  after_beats (ok RequestState.start) x r r' h = cc
  after_beats (ok (RequestState.connect_challenge _)) x r r' h = cc
  after_beats (ok (RequestState.reconnect_challenge _)) x r r' h = cc
  after_beats (ok RequestState.realmlist) x r r' h = cc
  after_beats (err error) x r r' h = finish_beats (err error) x r r' h
  after_beats panic x r r' h = cc

  accept_beats :
      (backlog : List Incoming) (r : Running A R)
      → (accept c e accounts realms backlog r).server.heartbeats ≡ r.server.heartbeats
  unfolding accept
  accept_beats [] r = refl
  accept_beats (accepted _ ∷ _) r = refl
  accept_beats (failed ∷ _) r = refl

  go_on_beats :
      (phase : Phase) (r r' : Running A R)
      → go_on c e accounts realms phase r ≡ ok r'
      → r.server.heartbeats ≡ r'.server.heartbeats
  unfolding go_on
  go_on_beats accepting r r' h = cc (accept_beats r.backlog r)
  go_on_beats (connected state stream) r r' h = after_beats _ _ r r' h
  go_on_beats closed r r' h = cc

  abbrev Beats : Running A R → Type 0
  Beats r = IsMap r.server.heartbeats.seen

  received :
      (heartbeats : Heartbeats) (r r' : Running A R)
      → ◌≡◌ {A = Outcome ServerError (Running A R)}
          (ok (record r { server = record r.server { heartbeats = heartbeats } }))
          (ok r')
      → heartbeats ≡ r'.server.heartbeats
  received heartbeats r r' h = cc

  turn-Beats :
      (event : Event) (r r' : Running A R)
      → turn c e accounts realms event r ≡ ok r'
      → Beats r
      → Beats r'
  unfolding turn update tick
  turn-Beats (arrives incoming) r r' h m =
      let same : record r { backlog = r.backlog ++ incoming ∷ [] } ≡ r' = cc in subst Beats same m
  turn-Beats connection_turn r r' h m = subst (λ h. IsMap h.seen) (go_on_beats r.phase r r' h) m
  turn-Beats (datagram now bytes) r r' h m =
      subst (λ h. IsMap h.seen) (received (receive e now bytes r.server.heartbeats) r r' h)
        (receive-IsMap e now bytes r.server.heartbeats m)
  turn-Beats (update_turn now) r r' h m =
      subst Beats (unless_panic_ok c e accounts realms _ _ r' h)
        (kept-IsMap now r.server.heartbeats.seen m)

module _ {A : Type 0} (c : Crypto) (e : Bincode) (accounts : AccountService A)
    (schema : Schema) where
  -- However connections and datagrams arrive, and however the tasks take turns, as long as the server
  -- runs: an update that comes while the database is up does not end it, and gives each realm of which
  -- a heartbeat is noted the flag offline where the last one is more than 15 whole seconds old and else
  -- recommended, and leaves the flags of all other realms.
  pub flags_follow_heartbeats :
      (events : List Event) (a : A) (s : Service) (now : ℕ) (r : Running A Service)
      → run c e accounts (Realms.service schema) events (started a s) ≡ ok r
      → r.server.realms.db.faults ≡ []
      → (r' : Running A Service) × (step c e accounts (Realms.service schema) (update_turn now) r
          ≡ ok r')
        × ((id : ℕ)
            → flags_in id r'.server.realms.db.realmlist
              ≡ (elim (last_seen id r.server.heartbeats.seen) [
                | none ↦ flags_in id r.server.realms.db.realmlist
                | some t ↦
                    some (
                      realm_flags_code (if ltb 15 ((now - t) / 1000) then offline else recommended))
              ]))
  unfolding step turn update unless_panic
  flags_follow_heartbeats events a s now r reached up =
      let distinct =
        run_keeps c e accounts (Realms.service schema) (Beats c e accounts (Realms.service schema))
          (turn-Beats c e accounts (Realms.service schema)) events (started a s) r reached
          (unfold IsMap in tt) in
      let (h', s') = tick (Realms.service schema) now r.server.heartbeats r.server.realms in
      (
        record r { server = record r.server { heartbeats = h'; realms = s' } },
        rw (
            (update_status_lem schema 0 (updates now r.server.heartbeats.seen) r.server.realms
              up).0),
        λ id. tick_flags schema id now r.server.heartbeats r.server.realms distinct up,
      )
