-- ===== src/Graphql/Banned.antt =====
-- From a ban over the interface to a login at the auth server.
use azerust.Prelude.{
  ℕ, ◌+◌, ◌*◌, ◌%◌, ◌^◌, ◌/◌, ◌≡◌, ◌<◌, ap, ◌∙◌, ◌⊎◌, Option, some, none, Bool, true, List, [],
  ◌==◌, if◌then◌else◌, arith,
}
use mathlib.Core.Option
use azerust.Prelude.Text.{codes}
use azerust.Prelude.Outcome.{Outcome, ok, err}
use azerust.Prelude.Exec.{raise_as, pure, bind_ok, raise_as_returns}
use azerust.Crypto.{Crypto}
use azerust.Game.Accounts.{suspended, banned}
use azerust.MysqlAuth.Db.{AccountRow, Db, Schema}
use azerust.MysqlAuth.Accounts.{set_ban, initiate_login, service}
use azerust.MysqlAuth.Accounts.Login.{row_of, ban_row_of}
use azerust.MysqlAuth.Accounts.Bans.{millis, ban_blocks_login}
use azerust.Graphql.{FieldError, operation, ban_seconds, ban_millis, set_ban_status}

-- The seconds of a ban; one without a duration has none.
abbrev pub seconds_of : Option ℕ → ℕ
seconds_of none = 0
seconds_of (some days) = days * 86400 % 2 ^ 64

-- The second in which a ban ends.
ends_in :
    (now : ℕ) (duration : Option ℕ)
    → (now + millis (Option.map ban_millis duration)) / 1000 ≡ now / 1000 + seconds_of duration
unfolding ban_millis ban_seconds
ends_in now none = omega arith
ends_in now (some days) = omega arith

module _ (c : Crypto) (schema : Schema) where
  set_ban_ok :
      (id : ℕ) (duration : Option ℕ) (reason : Option (List ℕ)) (s s' : Db)
      → set_ban_status (service c schema) id duration reason s ≡ (ok true, s')
      → set_ban c schema id (codes "arlyon") (Option.map ban_millis duration) reason s ≡ (ok tt, s')
  unfolding set_ban_status
  set_ban_ok id duration reason s s' h =
      let ban = set_ban c schema id (codes "arlyon") (Option.map ban_millis duration) reason in
      let (done, first, rest) = bind_ok (raise_as operation ban) (λ _. pure true) s true s' h in
      raise_as_returns operation ban s tt s'
        (λ i. (first i, ap (λ (p : Outcome FieldError Bool × Db). p.1) rest i))

  -- With the database up, from the moment that an account without a ban row is banned over the
  -- interface, its logins are refused: as suspended for the seconds of its days, and as banned, at
  -- any time, where these are none: without a duration, for 0 days, or where the product wraps to 0.
  pub api_ban_blocks_login :
      (username : List ℕ) (row : AccountRow) (duration : Option ℕ) (reason : Option (List ℕ))
      (t : ℕ) (s s' : Db)
      → s.faults ≡ []
      → row_of c schema username s ≡ some row
      → ban_row_of c schema row.id s ≡ none
      → set_ban_status (service c schema) row.id duration reason s ≡ (ok true, s')
      → ((t / 1000 < s.now / 1000 + seconds_of duration) ⊎ (seconds_of duration ≡ 0))
      → (initiate_login c schema username (record s' { now = t })).0
        ≡ err (if seconds_of duration == 0 then banned else suspended)
  api_ban_blocks_login username row duration reason t s s' up found unbanned set within =
      let ends = ends_in s.now duration in
      ban_blocks_login c schema username row (codes "arlyon") (Option.map ban_millis duration)
        reason t s s' up found unbanned (set_ban_ok row.id duration reason s s' set) (ground arith)
      ∙ ground arith
