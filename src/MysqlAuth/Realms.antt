-- ===== src/MysqlAuth/Realms.antt =====
-- crates/mysql-auth/src/realms.rs: the realm list over the database, with its cache. Times are
-- milliseconds.
pub mod Cache
pub mod Status
use azerust.Prelude.{
  ℕ, zero, suc, ◌+◌, ◌-◌, ◌/◌, ◌^◌, Option, some, none, Bool, true, false, not, List, [], ◌∷◌, ◌++◌,
  leb, ltb, ◌==◌, if◌then◌else◌,
}
use azerust.Prelude.Outcome.{Outcome, ok, err, panic}
use azerust.Prelude.Exec.{Exec, pure, raise, stop, gets, modify, on_part, ◌>>=◌, ◌>>◌}
use azerust.Game.Realms.{
  Realm, RealmFlags, realm_flags_code, RealmListError, start_time_in_future, start_time_too_large,
  persist_error, RealmList,
}
use azerust.MysqlAuth.Db.{Db, Schema, UptimeRow, attempt, all_where}

pub record Service : Type 0 where
  pub db : Db
  pub next_update : ℕ
  pub update_interval : ℕ
  pub cached : List Realm

-- `MySQLRealmList::new`
unfoldable pub new_service : Db → ℕ → Service
new_service db update_interval = record {
  db = db;
  next_update = db.now;
  update_interval = update_interval;
  cached = [];
}

insert_by_id : Realm → List Realm → List Realm
insert_by_id r [] = r ∷ []
insert_by_id r (q ∷ rest) =
    let more = insert_by_id r rest in if leb r.id q.id then r ∷ q ∷ rest else q ∷ more

sort_by_id : List Realm → List Realm
sort_by_id [] = []
sort_by_id (r ∷ rest) = insert_by_id r (sort_by_id rest)

-- SELECT … FROM realmlist WHERE flag <> 3 ORDER BY id
unfoldable pub select_realms : Db → List Realm
unfolding insert_by_id sort_by_id
select_realms db = sort_by_id (all_where (λ (r : Realm). not (r.flags == 3)) db.realmlist)

refreshed : Service → Outcome RealmListError (List Realm) × Db → Service
refreshed s (ok rows, db) = record s {
  db = db;
  next_update = s.db.now + s.update_interval;
  cached = rows;
}
refreshed s (err e, db) = record s { db = db }
refreshed s (panic, db) = record s { db = db }

-- The list is read anew when its time has come; a failed read leaves the old list and its time.
unfoldable pub realms : Service → List Realm × Service
unfolding refreshed
realms s =
    let fresh = refreshed s (attempt persist_error (gets select_realms) s.db) in
    if ltb s.next_update s.db.now then (fresh.cached, fresh) else (s.cached, s)

module _ (schema : Schema) where
  -- INSERT … ON DUPLICATE KEY UPDATE flag = values(flag)
  upsert_flag : ℕ → ℕ → List Realm → List Realm
  upsert_flag id flag [] = record schema.new_realm { id = id; flags = flag } ∷ []
  upsert_flag id flag (r ∷ rest) =
      let more = upsert_flag id flag rest in
      if r.id == id then record r { flags = flag } ∷ rest else r ∷ more

  set_flag : ℕ → RealmFlags → Exec Db RealmListError (Unit {0})
  unfolding upsert_flag
  set_flag id flag =
      attempt persist_error
        (modify λ s. record s { realmlist = upsert_flag id (realm_flags_code flag) s.realmlist })

  -- the loop of `update_status`, which stops at the first error
  update_flags : List (ℕ × RealmFlags) → Exec Db RealmListError (Unit {0})
  update_flags [] = pure tt
  update_flags ((id, flag) ∷ rest) = do set_flag id flag; update_flags rest

  on_db : {A : Type 0} → Exec Db RealmListError A → Exec Service RealmListError A
  on_db = on_part (λ s. s.db) (λ s d. record s { db = d })

  unfoldable pub update_status : List (ℕ × RealmFlags) → Exec Service RealmListError (Unit {0})
  unfolding on_db update_flags set_flag
  update_status online = on_db (update_flags online)

  upsert_uptime : UptimeRow → List UptimeRow → List UptimeRow
  upsert_uptime u [] = u ∷ []
  upsert_uptime u (r ∷ rest) =
      let more = upsert_uptime u rest in
      if schema.same_uptime r u
      then record r { uptime = u.uptime; maxplayers = u.maxplayers } ∷ rest
      else r ∷ more

  store_uptime : ℕ → ℕ → ℕ → ℕ → Exec Db RealmListError (Unit {0})
  unfolding upsert_uptime
  store_uptime id start uptime population = attempt persist_error (
      modify λ s. record s {
        uptimes =
            upsert_uptime
              (record { realmid = id; starttime = start; uptime = uptime; maxplayers = population })
              s.uptimes;
      })

  uptime_of : ℕ → ℕ → ℕ → ℕ → Exec Service RealmListError (Unit {0})
  unfolding on_db store_uptime
  uptime_of id start population now =
      if ltb now start
      then raise start_time_in_future
      else if leb (2 ^ 32) ((now - start) / 1000)
      then stop
      else on_db (store_uptime id (start / 1000) ((now - start) / 1000) population)

  -- `start` and the clock in milliseconds; an uptime of 2 ^ 32 seconds is a panic
  unfoldable pub set_uptime : ℕ → ℕ → ℕ → Exec Service RealmListError (Unit {0})
  unfolding uptime_of
  set_uptime id start population =
      if leb (2 ^ 32) (start / 1000)
      then raise start_time_too_large
      else (do now ← gets (λ s. s.db.now); uptime_of id start population now)

  -- `MySQLRealmList` implements the trait.
  abbrev pub service : RealmList Service
  service = record { realms = realms; update_status = update_status; set_uptime = set_uptime }
