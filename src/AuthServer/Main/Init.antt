-- ===== src/AuthServer/Main/Init.antt =====
-- The command that writes the first configuration.
use azerust.Prelude.{ℕ, ◌≡◌, ◌⊎◌, inl, inr, Option-cases, some, none, true, false, List, bytes_eq}
use azerust.Prelude.Outcome.{ok, err}
use azerust.Prelude.Exec.{Exec}
use azerust.Crypto.{Crypto}
use azerust.MysqlAuth.Db.{Schema}
use azerust.Config.{Yaml, Machine, MainError, could_not_open, could_not_read, read, read-write}
use azerust.AuthServer.Main.{AuthServerConfig, initial_config, Done, init, written, main}

module _ (c : Crypto) (schema : Schema) (yaml : Yaml AuthServerConfig) where
  -- the program with the command `init`
  abbrev pub run_init : List ℕ → Exec Machine MainError Done
  run_init path = main c schema yaml (record { config = path; command = some init })

  -- Where a readable configuration stands already, and its file can be written, `init` replaces it
  -- by the initial one, which is what the next start reads, and touches no other file.
  init_replaces :
      (path : List ℕ) (old : AuthServerConfig) (m : Machine)
      → read yaml path m ≡ (ok old, m)
      → m.can_create path ≡ true
      → (m' : Machine) × (run_init path m ≡ (ok written, m'))
        × (read yaml path m' ≡ (ok initial_config, m'))
        × ((p : List ℕ) → bytes_eq p path ≡ false → m'.files p ≡ m.files p)
  unfolding main
  init_replaces path old m there free =
      let (m', wrote, again, others, _) = read-write yaml initial_config path m free in
      (m', rw (there, wrote), again, others)

  -- `init`, where its file could be written: without a file at its path, or with one that is no
  -- configuration, it fails and changes nothing, although it is the command that makes one; else it
  -- replaces the configuration by the initial one, which the next start reads, and touches no other
  -- file.
  pub init_lem :
      (path : List ℕ) (m : Machine)
      → m.can_create path ≡ true
      → ((m.files path ≡ none) × (run_init path m ≡ (err could_not_open, m)))
        ⊎ (((bytes : List ℕ) × (m.files path ≡ some bytes)
              × (yaml.from_reader bytes ≡ none)
              × (run_init path m ≡ (err could_not_read, m)))
            ⊎ ((old : AuthServerConfig) × (m' : Machine) × (read yaml path m ≡ (ok old, m))
                × (run_init path m ≡ (ok written, m'))
                × (read yaml path m' ≡ (ok initial_config, m'))
                × ((p : List ℕ) → bytes_eq p path ≡ false → m'.files p ≡ m.files p)))
  unfolding main read
  init_lem path m free = elim (Option-cases (m.files path)) [
    | inl absent ↦ inl (absent, rw absent)
    | inr (bytes, there) ↦ elim (Option-cases (yaml.from_reader bytes)) [
      | inl other ↦ inr (inl (bytes, there, other, rw (there, other)))
      | inr (old, known) ↦
          let seen : read yaml path m ≡ (ok old, m) = rw (there, known) in
          let (m', done, again, others) = init_replaces path old m seen free in
          inr (inr (old, m', seen, done, again, others))
    ]
  ]
