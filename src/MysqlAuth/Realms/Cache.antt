-- ===== src/MysqlAuth/Realms/Cache.antt =====
-- The cache of the realm list.
use azerust.Prelude.{
  ℕ, ◌+◌, ◌≡◌, ◌≤◌, ◌<◌, Bool, true, List, [], ◌∷◌, arith, ◌==◌, not, leb, All, Bool-cases, inl,
  inr,
}
use azerust.Game.Realms.{Realm}
use azerust.MysqlAuth.Db.{Db, attempt, all_where}
use azerust.MysqlAuth.Realms.{Service, realms, select_realms, insert_by_id, sort_by_id}

-- Once a list was read at some time, the same list is served without another statement for the whole
-- update interval, whatever happens to the database meanwhile.
pub cached_within_interval :
    (s : Service) (db : Db)
    → s.db.faults ≡ []
    → s.next_update < s.db.now
    → db.now ≤ s.db.now + s.update_interval
    → (realms (record (realms s).1 { db = db }))
      ≡ (select_realms s.db, record (realms s).1 { db = db })
unfolding realms attempt
cached_within_interval s db up due soon = ground arith

-- Where the next statement fails, a call serves the list that was there and leaves the time of the
-- next read as it was.
pub failed_read_keeps_list :
    (s : Service) (rest : List Bool)
    → s.db.faults ≡ true ∷ rest
    → ((realms s).0 ≡ s.cached) × ((realms s).1.next_update ≡ s.next_update)
unfolding realms attempt
failed_read_keeps_list s rest down = ground arith

-- Sorted by number, whatever follows.
abbrev pub IsSorted : List Realm → Type 0
IsSorted [] = Unit {0}
IsSorted (r ∷ rest) = All (λ (q : Realm). r.id ≤ q.id) rest × IsSorted rest

All-insert_by_id :
    (P : Realm → Type 0) (r : Realm) (rs : List Realm) → P r → All P rs → All P (insert_by_id r rs)
unfolding insert_by_id
All-insert_by_id P r [] hr h = (hr, tt)
All-insert_by_id P r (q ∷ rest) hr (hq, h) = elim (Bool-cases (leb r.id q.id)) [
  | inl low ↦ rw (low, insert_by_id) (hr, (hq, h))
  | inr high ↦ rw (high, insert_by_id) (hq, All-insert_by_id P r rest hr h)
]

All-weaken :
    (m n : ℕ) (rs : List Realm)
    → m ≤ n
    → All (λ (q : Realm). n ≤ q.id) rs
    → All (λ (q : Realm). m ≤ q.id) rs
All-weaken m n [] h all = tt
All-weaken m n (q ∷ rest) h (hq, all) = (omega arith, All-weaken m n rest h all)

insert_by_id-IsSorted : (r : Realm) (rs : List Realm) → IsSorted rs → IsSorted (insert_by_id r rs)
unfolding insert_by_id
insert_by_id-IsSorted r [] h = (tt, tt)
insert_by_id-IsSorted r (q ∷ rest) (hq, h) = elim (Bool-cases (leb r.id q.id)) [
  | inl low ↦
      let le : r.id ≤ q.id = ground arith in
      rw (low, insert_by_id) ((le, All-weaken r.id q.id rest le hq), (hq, h))
  | inr high ↦
      rw (high, insert_by_id)
        (
          All-insert_by_id (λ (p : Realm). q.id ≤ p.id) r rest (ground arith) hq,
          insert_by_id-IsSorted r rest h,
        )
]

sort_by_id-IsSorted : (rs : List Realm) → IsSorted (sort_by_id rs)
unfolding sort_by_id
sort_by_id-IsSorted [] = tt
sort_by_id-IsSorted (r ∷ rest) =
    insert_by_id-IsSorted r (sort_by_id rest) (sort_by_id-IsSorted rest)

All-sort_by_id : (P : Realm → Type 0) (rs : List Realm) → All P rs → All P (sort_by_id rs)
unfolding sort_by_id
All-sort_by_id P [] h = tt
All-sort_by_id P (r ∷ rest) (hr, h) =
    All-insert_by_id P r (sort_by_id rest) hr (All-sort_by_id P rest h)

All-all_where : (p : Realm → Bool) (rs : List Realm) → All (λ r. p r ≡ true) (all_where p rs)
unfolding all_where
All-all_where p [] = tt
All-all_where p (r ∷ rest) = elim (Bool-cases (p r)) [
  | inl keep ↦ rw (keep, all_where) (keep, All-all_where p rest)
  | inr drop ↦ rw (drop, all_where) (All-all_where p rest)
]

-- A list that is read from the database is sorted by the number of the realm, and holds no realm
-- whose flags are 3.
pub select_realms-IsSorted :
    (db : Db)
    → IsSorted (select_realms db)
      × All (λ (r : Realm). not (r.flags == 3) ≡ true) (select_realms db)
unfolding select_realms
select_realms-IsSorted db =
    let usable : Realm → Bool = λ r. not (r.flags == 3) in
    (
      sort_by_id-IsSorted (all_where usable db.realmlist),
      All-sort_by_id (λ r. usable r ≡ true) (all_where usable db.realmlist)
          (All-all_where usable db.realmlist),
    )
