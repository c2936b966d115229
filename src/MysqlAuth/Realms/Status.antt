-- ===== src/MysqlAuth/Realms/Status.antt =====
-- The status of the realms.
use azerust.Prelude.{
  ℕ, ◌≡◌, ◌≢◌, refl, sym, Option, some, none, List, [], ◌∷◌, arith, ◌==◌, if◌then◌else◌,
}
use azerust.Prelude.Outcome.{ok, panic}
use azerust.Prelude.Exec.{modify, bind_calm}
use azerust.Game.Realms.{Realm, persist_error, RealmFlags, realm_flags_code}
use azerust.MysqlAuth.Db.{Db, Schema, attempt_up, attempt_calm}
use azerust.MysqlAuth.Realms.{Service, update_status, update_flags, upsert_flag, set_flag}

-- The flags of a realm in the table.
abbrev pub flags_in : ℕ → List Realm → Option ℕ
flags_in id [] = none
flags_in id (r ∷ rest) = if r.id == id then some r.flags else flags_in id rest

-- The flags that a list of updates leaves, the last one for a realm counting.
abbrev pub flags_after : ℕ → List (ℕ × RealmFlags) → Option ℕ → Option ℕ
flags_after id [] before = before
flags_after id ((j, flag) ∷ rest) before =
    flags_after id rest (if j == id then some (realm_flags_code flag) else before)

module _ (schema : Schema) where
  flags_in-upsert_flag :
      (id j flag : ℕ) (rs : List Realm)
      → flags_in j (upsert_flag schema id flag rs) ≡ (if id == j then some flag else flags_in j rs)
  unfolding upsert_flag
  flags_in-upsert_flag id j flag [] = ground arith
  flags_in-upsert_flag id j flag (r ∷ rest) = ground (arith, flags_in-upsert_flag id j flag rest)

  abbrev flagged : ℕ → RealmFlags → Db → Db
  flagged j flag db = record db {
    realmlist = upsert_flag schema j (realm_flags_code flag) db.realmlist;
  }

  set_flag_up :
      (j : ℕ) (flag : RealmFlags) (db : Db)
      → db.faults ≡ []
      → set_flag schema j flag db ≡ (ok tt, flagged j flag db)
  unfolding set_flag
  set_flag_up j flag db up = attempt_up persist_error (modify (flagged j flag)) db up

  update_flags_lem :
      (id : ℕ) (online : List (ℕ × RealmFlags)) (db : Db)
      → db.faults ≡ []
      → ((update_flags schema online db).0 ≡ ok tt)
        × (flags_in id (update_flags schema online db).1.realmlist
            ≡ flags_after id online (flags_in id db.realmlist))
  unfolding update_flags
  update_flags_lem id [] db up = (refl, refl)
  update_flags_lem id ((j, flag) ∷ rest) db up =
      rw
        (
          set_flag_up j flag db up,
          sym (flags_in-upsert_flag j id (realm_flags_code flag) db.realmlist),
        )
        (update_flags_lem id rest (flagged j flag db) up)

  -- With the database up, an update of the status succeeds, and leaves every realm with the flags of
  -- its last entry, or as it was if it has none.
  pub update_status_lem :
      (id : ℕ) (online : List (ℕ × RealmFlags)) (s : Service)
      → s.db.faults ≡ []
      → ((update_status schema online s).0 ≡ ok tt)
        × (flags_in id (update_status schema online s).1.db.realmlist
            ≡ flags_after id online (flags_in id s.db.realmlist))
  unfolding update_status
  update_status_lem id online s up = update_flags_lem id online s.db up

  set_flag_calm : (j : ℕ) (flag : RealmFlags) (db : Db) → (set_flag schema j flag db).0 ≢ panic
  unfolding set_flag
  set_flag_calm j flag db = attempt_calm persist_error (modify (flagged j flag)) db (λ s h. cc)

  update_flags_calm :
      (online : List (ℕ × RealmFlags)) (db : Db) → (update_flags schema online db).0 ≢ panic
  unfolding update_flags
  update_flags_calm [] db = λ h. cc
  update_flags_calm ((j, flag) ∷ rest) db =
      bind_calm (set_flag schema j flag) (λ _. update_flags schema rest) db
        (set_flag_calm j flag db) (λ _. update_flags_calm rest)

  -- An update of the status never panics, in whatever order its statements fail.
  pub update_status_calm :
      (online : List (ℕ × RealmFlags)) (s : Service) → (update_status schema online s).0 ≢ panic
  unfolding update_status
  update_status_calm online s = update_flags_calm online s.db
