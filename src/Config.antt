-- ===== src/Config.antt =====
-- The configuration files of both servers (`read` and `write` of services/auth/src/conf.rs and of
-- services/world/src/conf.rs), over the files and databases of the machine.
use azerust.Prelude.{
  ℕ, ◌≡◌, refl, Option, some, Bool, true, false, List, if◌then◌else◌, bytes_eq, bytes_eq_refl,
}
use azerust.Prelude.Outcome.{ok, err, ok_or}
use azerust.Prelude.Exec.{Exec, gets, lift, ◌>>=◌}
use azerust.MysqlAuth.Db.{Db}
use azerust.MysqlCharacters

-- serde_yaml
pub record Yaml (C : Type 0) : Type 0 where
  pub to_writer : C → List ℕ
  pub from_reader : List ℕ → Option C
  pub from-to : (c : C) → from_reader (to_writer c) ≡ some c

-- Files by their path, and databases by their address; `none` is what cannot be opened.
pub record Machine : Type 0 where
  pub files : List ℕ → Option (List ℕ)
  pub can_create : List ℕ → Bool
  pub databases : List ℕ → Option Db
  pub character_databases : List ℕ → Option MysqlCharacters.Db

pub data MainError : Type 0 where
  could_not_open could_not_read could_not_create could_not_connect : MainError

-- `File::create`, and a write to it
unfoldable pub create_file : List ℕ → List ℕ → Exec Machine MainError (Unit {0})
create_file path bytes m =
    if m.can_create path
    then (ok tt, record m { files = λ p. if bytes_eq p path then some bytes else m.files p })
    else (err could_not_create, m)

module _ {C : Type 0} (yaml : Yaml C) where
  -- `Config::read`
  unfoldable pub read : List ℕ → Exec Machine MainError C
  read path = do
    file ← gets (λ m. m.files path)
    bytes ← lift (ok_or file could_not_open)
    lift (ok_or (yaml.from_reader bytes) could_not_read)

  -- `Config::write`
  unfoldable pub write : C → List ℕ → Exec Machine MainError (Unit {0})
  write config path = create_file path (yaml.to_writer config)

  -- What is written is read again, and the other files stay.
  pub read-write :
      (config : C) (path : List ℕ) (m : Machine)
      → m.can_create path ≡ true
      → (m' : Machine) × (write config path m ≡ (ok tt, m'))
        × (read path m' ≡ (ok config, m'))
        × ((p : List ℕ) → bytes_eq p path ≡ false → m'.files p ≡ m.files p)
        × (m'.databases ≡ m.databases)
  unfolding read write create_file
  read-write config path m free = (
    record m { files = λ p. if bytes_eq p path then some (yaml.to_writer config) else m.files p },
    rw free,
    rw (bytes_eq_refl path, yaml.from-to config),
    λ p other. rw other,
    refl,
  )

-- `MySqlPool::connect`
unfoldable pub connect : List ℕ → Exec Machine MainError Db
connect address = do found ← gets (λ m. m.databases address); lift (ok_or found could_not_connect)

unfoldable pub connect_characters : List ℕ → Exec Machine MainError MysqlCharacters.Db
connect_characters address = do
  found ← gets (λ m. m.character_databases address)
  lift (ok_or found could_not_connect)

-- What a connection has made of a database.
unfoldable pub store : List ℕ → Db → Machine → Machine
store address db m = record m {
  databases = λ a. if bytes_eq a address then some db else m.databases a;
}
