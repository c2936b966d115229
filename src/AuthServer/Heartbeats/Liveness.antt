-- ===== src/AuthServer/Heartbeats/Liveness.antt =====
-- From the heartbeats of the world servers to the flags of their realms.
use azerust.Prelude.{
  ℕ, ◌-◌, ◌/◌, ◌≡◌, refl, ◌∙◌, Option, some, none, List, [], ◌∷◌, ◌++◌, ltb, ◌==◌, if◌then◌else◌,
  arith,
}
use azerust.Game.Realms.{RealmFlags, offline, recommended, realm_flags_code}
use azerust.MysqlAuth.Db.{Schema}
use azerust.MysqlAuth.Realms.{Service, service}
use azerust.MysqlAuth.Realms.Status.{flags_in, flags_after, update_status_lem}
use azerust.AuthServer.Heartbeats.{
  Heartbeats, tick, insert, is_stale, drained, kept, marked, updates,
}

-- The time of the last heartbeat of a realm.
unfoldable pub last_seen : ℕ → List (ℕ × ℕ) → Option ℕ
last_seen id [] = none
last_seen id ((k, t) ∷ rest) = let more = last_seen id rest in if k == id then some t else more

-- Each realm once.
unfoldable pub IsMap : List (ℕ × ℕ) → Type 0
IsMap [] = Unit {0}
IsMap ((k, t) ∷ rest) = (last_seen k rest ≡ none) × IsMap rest

-- An insertion sets the time of its realm and of no other.
pub last_seen-insert :
    (id k now : ℕ) (seen : List (ℕ × ℕ))
    → last_seen id (insert k now seen) ≡ (if k == id then some now else last_seen id seen)
unfolding insert last_seen
last_seen-insert id k now [] = refl
last_seen-insert id k now ((j, t) ∷ rest) = ground (arith, last_seen-insert id k now rest)

pub insert-IsMap : (k now : ℕ) (seen : List (ℕ × ℕ)) → IsMap seen → IsMap (insert k now seen)
unfolding insert IsMap last_seen
insert-IsMap k now [] h = (refl, tt)
insert-IsMap k now ((j, t) ∷ rest) (fresh, h) =
    ground (arith, last_seen-insert j k now rest, insert-IsMap k now rest h)

-- What is left after a tick: the times that are not stale.
pub last_seen-kept :
    (id now : ℕ) (seen : List (ℕ × ℕ))
    → IsMap seen
    → last_seen id (kept now seen) ≡ (elim (last_seen id seen) [
      | none ↦ none
      | some t ↦ if is_stale now t then none else some t
    ])
unfolding kept last_seen IsMap
last_seen-kept id now [] h = refl
last_seen-kept id now ((j, t) ∷ rest) (fresh, h) = ground (arith, last_seen-kept id now rest h)

last_seen-drained :
    (id now : ℕ) (seen : List (ℕ × ℕ))
    → IsMap seen
    → last_seen id (drained now seen) ≡ (elim (last_seen id seen) [
      | none ↦ none
      | some t ↦ if is_stale now t then some t else none
    ])
unfolding drained last_seen IsMap
last_seen-drained id now [] h = refl
last_seen-drained id now ((j, t) ∷ rest) (fresh, h) =
    ground (arith, last_seen-drained id now rest h)

-- A tick leaves a map.
pub kept-IsMap : (now : ℕ) (seen : List (ℕ × ℕ)) → IsMap seen → IsMap (kept now seen)
unfolding kept IsMap
kept-IsMap now [] h = tt
kept-IsMap now ((j, t) ∷ rest) (fresh, h) =
    ground (arith, last_seen-kept j now rest h, kept-IsMap now rest h)

flags_after-append :
    (id : ℕ) (xs ys : List (ℕ × RealmFlags)) (before : Option ℕ)
    → flags_after id (xs ++ ys) before ≡ flags_after id ys (flags_after id xs before)
flags_after-append id [] ys before = refl
flags_after-append id ((j, flag) ∷ xs) ys before = flags_after-append id xs ys _

flags_after-marked :
    (id : ℕ) (flag : RealmFlags) (seen : List (ℕ × ℕ)) (before : Option ℕ)
    → flags_after id (marked flag seen) before
      ≡ (elim (last_seen id seen) [ none ↦ before | some t ↦ some (realm_flags_code flag) ])
unfolding marked last_seen
flags_after-marked id flag [] before = refl
flags_after-marked id flag ((j, t) ∷ rest) before = ground (
  arith,
  flags_after-marked id flag rest before,
  flags_after-marked id flag rest (some (realm_flags_code flag)),
)

flags_after-updates :
    (id now : ℕ) (seen : List (ℕ × ℕ)) (before : Option ℕ)
    → IsMap seen
    → flags_after id (updates now seen) before ≡ (elim (last_seen id seen) [
      | none ↦ before
      | some t ↦ some (realm_flags_code (if is_stale now t then offline else recommended))
    ])
unfolding updates
flags_after-updates id now seen before h =
    flags_after-append id (marked offline (drained now seen)) _ before
    ∙ ground (
      arith,
      flags_after-marked id offline (drained now seen) before,
      flags_after-marked id recommended (kept now seen)
          (flags_after id (marked offline (drained now seen)) before),
      last_seen-drained id now seen h,
      last_seen-kept id now seen h,
    )

-- A tick of the updater, with the database up, gives each realm of which a heartbeat is noted the
-- flag offline where the last one is more than 15 whole seconds old, and else the flag recommended;
-- the flags of all other realms stay.
pub tick_flags :
    (schema : Schema) (id now : ℕ) (h : Heartbeats) (s : Service)
    → IsMap h.seen
    → s.db.faults ≡ []
    → flags_in id (tick (service schema) now h s).1.db.realmlist ≡ (elim (last_seen id h.seen) [
      | none ↦ flags_in id s.db.realmlist
      | some t ↦
          some (realm_flags_code (if ltb 15 ((now - t) / 1000) then offline else recommended))
    ])
unfolding tick is_stale
tick_flags schema id now h s distinct up =
    (update_status_lem schema id (updates now h.seen) s up).1
    ∙ flags_after-updates id now h.seen _ distinct
