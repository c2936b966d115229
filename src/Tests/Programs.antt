-- ===== src/Tests/Programs.antt =====
-- The program of the auth server on a machine with one file.
use azerust.Prelude.{
  ℕ, zero, suc, ◌≡◌, ◌⊎◌, refl, true, false, List, [], ◌∷◌, ◌++◌, Option, some, none, bytes_eq,
  length, take, drop, take-append, drop-append,
}
use azerust.Prelude.Outcome.{ok, err}
use azerust.Config.{Yaml, Machine, could_not_open, could_not_read, read}
use azerust.AuthServer.Main.{AuthServerConfig, initial_config, written}
use azerust.AuthServer.Main.Init.{run_init, init_lem}
use azerust.Tests.Instances.{crypto, schema}

abbrev put_option : Option ℕ → ℕ
put_option none = 0
put_option (some n) = suc n

abbrev get_option : ℕ → Option ℕ
get_option zero = none
get_option (suc n) = some n

get_option-put_option : (o : Option ℕ) → get_option (put_option o) ≡ o
get_option-put_option none = refl
get_option-put_option (some n) = refl

-- a file format: numbers, then the length of the first text, then the two texts
abbrev put_config : AuthServerConfig → List ℕ
put_config c =
    c.port
      ∷ c.heartbeat_port
      ∷ put_option c.api_port
      ∷ put_option c.console_port
      ∷ length c.bind_address
      ∷ c.bind_address
    ++ c.auth_database

abbrev get_config : List ℕ → Option AuthServerConfig
get_config (p ∷ h ∷ a ∷ o ∷ n ∷ rest) = some (record {
  bind_address = take n rest;
  port = p;
  heartbeat_port = h;
  api_port = get_option a;
  console_port = get_option o;
  auth_database = drop n rest;
})
get_config _ = none

get_config-put_config : (c : AuthServerConfig) → get_config (put_config c) ≡ some c
get_config-put_config c = rw (
  take-append (length c.bind_address) c.bind_address c.auth_database refl,
  drop-append (length c.bind_address) c.bind_address c.auth_database refl,
  get_option-put_option c.api_port,
  get_option-put_option c.console_port,
)

abbrev yaml : Yaml AuthServerConfig
yaml = record { to_writer = put_config; from_reader = get_config; from-to = get_config-put_config }

abbrev old_config : AuthServerConfig
old_config = record initial_config { port = 3725 }

abbrev machine : Machine
machine = record {
  files = λ p. some (put_config old_config);
  can_create = λ p. true;
  databases = λ a. none;
  character_databases = λ a. none;
}

init_lem_example :
    ((machine.files [] ≡ none)
      × (run_init crypto schema yaml [] machine ≡ (err could_not_open, machine)))
    ⊎ (((bytes : List ℕ) × (machine.files [] ≡ some bytes)
          × (yaml.from_reader bytes ≡ none)
          × (run_init crypto schema yaml [] machine ≡ (err could_not_read, machine)))
        ⊎ ((old : AuthServerConfig) × (m' : Machine) × (read yaml [] machine ≡ (ok old, machine))
            × (run_init crypto schema yaml [] machine ≡ (ok written, m'))
            × (read yaml [] m' ≡ (ok initial_config, m'))
            × ((p : List ℕ) → bytes_eq p [] ≡ false → m'.files p ≡ machine.files p)))
init_lem_example = init_lem crypto schema yaml [] machine refl
