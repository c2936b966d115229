-- ===== src/AuthServer/Heartbeats.antt =====
-- `world_server_heartbeat` and `realmlist_updater` of services/auth/src/authserver.rs. The map of the
-- heartbeats is a list of realms with the time of their last one, in milliseconds, each realm once.
pub mod Liveness
use azerust.Prelude.{
  ℕ, zero, suc, ◌-◌, ◌/◌, ◌≡◌, Option, some, none, List, [], ◌∷◌, ◌++◌, map, take, drop, length,
  ltb, ◌==◌, if◌then◌else◌, Bool, true, false,
}
use azerust.Prelude.Outcome.{Outcome}
use azerust.Bincode.{Bincode, Reader, ◌>>=◌, done, deserialize}
use azerust.Game.Realms.{RealmFlags, offline, recommended, RealmList, RealmListError}

pub record Heartbeats : Type 0 where
  pub buffer : List ℕ
  pub seen : List (ℕ × ℕ)

-- `socket.recv(&mut buffer)`: a longer datagram is cut, a shorter one leaves the old bytes behind it
unfoldable pub filled : List ℕ → List ℕ → List ℕ
filled datagram buffer = take 6 datagram ++ drop (length datagram) buffer

-- `HashMap::insert`
unfoldable pub insert : ℕ → ℕ → List (ℕ × ℕ) → List (ℕ × ℕ)
insert id now [] = (id, now) ∷ []
insert id now ((k, t) ∷ rest) =
    let more = insert id now rest in if k == id then (k, now) ∷ rest else (k, t) ∷ more

-- `now.saturating_duration_since(v).as_secs() > 15`
unfoldable pub is_stale : ℕ → ℕ → Bool
is_stale now t = ltb 15 ((now - t) / 1000)

-- `drain_filter`: what it takes out, and what it leaves
drained : ℕ → List (ℕ × ℕ) → List (ℕ × ℕ)
drained now [] = []
drained now ((k, t) ∷ rest) =
    let more = drained now rest in if is_stale now t then (k, t) ∷ more else more

unfoldable pub kept : ℕ → List (ℕ × ℕ) → List (ℕ × ℕ)
kept now [] = []
kept now ((k, t) ∷ rest) =
    let more = kept now rest in if is_stale now t then more else (k, t) ∷ more

-- every key of a map, with one flag
marked : RealmFlags → List (ℕ × ℕ) → List (ℕ × RealmFlags)
marked flag [] = []
marked flag ((k, t) ∷ rest) = (k, flag) ∷ marked flag rest

-- the `data` of one update
unfoldable pub updates : ℕ → List (ℕ × ℕ) → List (ℕ × RealmFlags)
unfolding drained kept marked
updates now seen = marked offline (drained now seen) ++ marked recommended (kept now seen)

-- One tick of `realmlist_updater`: an error of `update_status` is only logged.
unfoldable pub tick : {R : Type 0} → RealmList R → ℕ → Heartbeats → R → Heartbeats × R
unfolding updates kept
tick realms now h r =
    let (result, r') = realms.update_status (updates now h.seen) r in
    (record h { seen = kept now h.seen }, r')

module _ (e : Bincode) where
  open e use {get_int, put_int}

  unfoldable pub get_heartbeat : Reader (ℕ × ℕ × ℕ)
  get_heartbeat = do
    tag ← get_int 1
    realm_id ← get_int 1
    realm_pop ← get_int 4
    done (tag, realm_id, realm_pop)

  unfoldable pub noted : ℕ → Heartbeats → Option (ℕ × ℕ × ℕ) → Heartbeats
  unfolding insert
  noted now h none = h
  noted now h (some (tag, realm_id, realm_pop)) =
      if tag == 0 then record h { seen = insert realm_id now h.seen } else h

  -- One round of `world_server_heartbeat`: a datagram at some time, or a failed `recv`.
  unfoldable pub receive : ℕ → Option (List ℕ) → Heartbeats → Heartbeats
  unfolding filled noted get_heartbeat
  receive now none h = h
  receive now (some datagram) h =
      let buffer = filled datagram h.buffer in
      noted now (record h { buffer = buffer }) (deserialize e get_heartbeat buffer)
