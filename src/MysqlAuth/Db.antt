-- ===== src/MysqlAuth/Db.antt =====
-- The database of crates/mysql-auth: the tables that its SQL statements name, as lists of rows in the
-- order in which the server returns them, with the columns that the statements name. A statement may
-- fail: `faults` says which of the coming ones do, a broken constraint included. The random draws and
-- the clock, in milliseconds, stand beside the tables.
use azerust.Prelude.{
  ℕ, suc, ◌+◌, ◌/◌, ◌≡◌, ◌≢◌, ap, Option, some, none, Bool, true, false, List, [], ◌∷◌, ◌==◌, ltb,
  ◌||◌,
}
use azerust.Prelude.Outcome.{ok, err, panic}
use azerust.Prelude.Exec.{Exec}
use azerust.Game.Realms.{Realm}

pub record AccountRow : Type 0 where
  pub id : ℕ
  pub username : List ℕ
  pub salt : List ℕ
  pub verifier : List ℕ
  pub session_key_auth : Option (List ℕ)
  pub reg_mail : List ℕ
  pub email : List ℕ
  pub joindate : ℕ
  pub last_ip : List ℕ
  pub last_login : Option ℕ
  pub locale : ℕ
  pub failed_logins : ℕ
  pub os : List ℕ
  pub online : ℕ

pub record BanRow : Type 0 where
  pub id : ℕ
  pub bandate : ℕ
  pub unbandate : ℕ
  pub bannedby : List ℕ
  pub banreason : List ℕ
  pub active : Bool

pub record UptimeRow : Type 0 where
  pub realmid : ℕ
  pub starttime : ℕ
  pub uptime : ℕ
  pub maxplayers : ℕ

pub record Db : Type 0 where
  pub account : List AccountRow
  pub account_banned : List BanRow
  -- realm, account and number of characters
  pub realmcharacters : List (ℕ × ℕ × ℕ)
  pub realmlist : List Realm
  pub uptimes : List UptimeRow
  pub next_account : ℕ
  pub faults : List Bool
  pub draws : ℕ → List ℕ
  pub drawn : ℕ
  pub now : ℕ

-- What the schema and the libraries decide: the comparison of texts, the defaults of the columns
-- that an INSERT leaves out, and chrono's addition of a duration, `none` where it overflows.
pub record Schema : Type 0 where
  pub same_text : List ℕ → List ℕ → Bool
  pub new_account : AccountRow
  pub active_by_default : Bool
  pub new_realm : Realm
  -- whether two rows have one key in the table of the uptimes
  pub same_uptime : UptimeRow → UptimeRow → Bool
  pub add_time : ℕ → ℕ → Option ℕ
  pub add_time_sum : (t d u : ℕ) → add_time t d ≡ some u → u ≡ t + d

attempt_with : {E A : Type 0} → E → Exec Db E A → List Bool → Exec Db E A
attempt_with e m [] s = m s
attempt_with e m (true ∷ rest) s = (err e, record s { faults = rest })
attempt_with e m (false ∷ rest) s = m (record s { faults = rest })

-- A statement that runs `m`, or fails with `e`.
unfoldable pub attempt : {E A : Type 0} → E → Exec Db E A → Exec Db E A
unfolding attempt_with
attempt e m s = attempt_with e m s.faults s

-- Where no statement fails, `attempt` adds nothing.
pub attempt_up :
    {E A : Type 0} (e : E) (m : Exec Db E A) (s : Db) → s.faults ≡ [] → attempt e m s ≡ m s
unfolding attempt
attempt_up e m s up = ap (λ faults. attempt_with e m faults s) up

attempt_with_calm :
    {E A : Type 0} (e : E) (m : Exec Db E A) (faults : List Bool) (s : Db)
    → ((s : Db) → (m s).0 ≢ panic)
    → (attempt_with e m faults s).0 ≢ panic
unfolding attempt_with
attempt_with_calm e m [] s calm = calm s
attempt_with_calm e m (true ∷ rest) s calm = λ h. cc
attempt_with_calm e m (false ∷ rest) s calm = calm (record s { faults = rest })

-- A statement that fails does not panic.
pub attempt_calm :
    {E A : Type 0} (e : E) (m : Exec Db E A) (s : Db)
    → ((s : Db) → (m s).0 ≢ panic)
    → (attempt e m s).0 ≢ panic
unfolding attempt
attempt_calm e m s = attempt_with_calm e m s.faults s

-- `rng.gen()`
unfoldable pub draw : {E : Type 0} → Exec Db E (List ℕ)
draw s = (ok (s.draws s.drawn), record s { drawn = suc s.drawn })

-- UNIX_TIMESTAMP()
abbrev pub unix_timestamp : Db → ℕ
unix_timestamp s = s.now / 1000

-- `unbandate > UNIX_TIMESTAMP() OR unbandate = bandate`, and `unbandate = bandate`
unfoldable pub is_permabanned : BanRow → Bool
is_permabanned b = b.unbandate == b.bandate

unfoldable pub is_banned : ℕ → BanRow → Bool
unfolding is_permabanned
is_banned t b = ltb t b.unbandate || is_permabanned b

module _ {A : Type 0} where
  -- the first row that a WHERE clause keeps
  unfoldable pub first_where : (A → Bool) → List A → Option A
  first_where p [] = none
  first_where p (a ∷ rest) =
      let more = first_where p rest in elim (p a) [ true ↦ some a | false ↦ more ]

  unfoldable pub all_where : (A → Bool) → List A → List A
  all_where p [] = []
  all_where p (a ∷ rest) =
      let more = all_where p rest in elim (p a) [ true ↦ a ∷ more | false ↦ more ]

  -- UPDATE … WHERE
  unfoldable pub update_where : (A → Bool) → (A → A) → List A → List A
  update_where p f [] = []
  update_where p f (a ∷ rest) =
      let more = update_where p f rest in elim (p a) [ true ↦ f a ∷ more | false ↦ a ∷ more ]
