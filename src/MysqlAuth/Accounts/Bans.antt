-- ===== src/MysqlAuth/Accounts/Bans.antt =====
-- Bans, from `set_ban` to the next login.
use azerust.Prelude.{
  ℕ, ◌+◌, ◌/◌, ◌≡◌, ◌<◌, Option, some, none, Bool, true, List, [], ◌∷◌, ◌++◌, ◌==◌, if◌then◌else◌,
  arith, ==-refl, ◌⊎◌, inl, inr, ◌∙◌, Option-cases,
}
use azerust.Prelude.Outcome.{ok, err}
use azerust.Crypto.{Crypto}
use azerust.Game.Accounts.{suspended, banned}
use azerust.MysqlAuth.Db.{
  AccountRow, BanRow, Db, Schema, attempt, is_permabanned, is_banned, first_where,
}
use azerust.MysqlAuth.Accounts.{set_ban, initiate_login}
use azerust.MysqlAuth.Accounts.Login.{row_of, ban_row_of, initiate_login_banned}
use mathlib.Core.Option.{get_or}

-- The milliseconds that a ban adds to its first date.
abbrev pub millis : Option ℕ → ℕ
millis none = 0
millis (some d) = d

first_where-append :
    (p : BanRow → Bool) (rows : List BanRow) (ban : BanRow)
    → first_where p rows ≡ none
    → p ban ≡ true
    → first_where p (rows ++ ban ∷ []) ≡ some ban
unfolding first_where
first_where-append p [] ban h e = rw (e, first_where)
first_where-append p (r ∷ rows) ban h e = ground (arith, first_where-append p rows ban)

module _ (c : Crypto) (schema : Schema) where
  -- A ban that is set is one new row: both dates in seconds, the second one the first where no
  -- duration was given, else the end of the duration. Nothing else of what a login reads changes.
  pub set_ban_row :
      (id : ℕ) (author : List ℕ) (duration : Option ℕ) (reason : Option (List ℕ)) (s s' : Db)
      → s.faults ≡ []
      → set_ban c schema id author duration reason s ≡ (ok tt, s')
      → (s'.account_banned
          ≡ s.account_banned
            ++ record {
              id = id;
              bandate = s.now / 1000;
              unbandate = (s.now + millis duration) / 1000;
              bannedby = author;
              banreason = get_or reason [];
              active = schema.active_by_default;
            }
              ∷ [])
        × (s'.account ≡ s.account)
        × (s'.faults ≡ [])
  unfolding set_ban attempt
  set_ban_row id author none reason s s' up h = ground arith
  set_ban_row id author (some d) reason s s' up h = elim (Option-cases (schema.add_time s.now d)) [
    | inl over ↦ ground arith
    | inr (u, sum) ↦ ground (arith, schema.add_time_sum s.now d u sum)
  ]

  -- From the moment that an account without a ban row is banned, its logins are refused: as banned,
  -- at any time, where both dates fall into one second; else as suspended, until the second date.
  pub ban_blocks_login :
      (username : List ℕ) (row : AccountRow) (author : List ℕ) (duration : Option ℕ)
      (reason : Option (List ℕ)) (t : ℕ) (s s' : Db)
      → s.faults ≡ []
      → row_of c schema username s ≡ some row
      → ban_row_of c schema row.id s ≡ none
      → set_ban c schema row.id author duration reason s ≡ (ok tt, s')
      → ((t / 1000 < (s.now + millis duration) / 1000)
          ⊎ ((s.now + millis duration) / 1000 ≡ s.now / 1000))
      → (initiate_login c schema username (record s' { now = t })).0
        ≡ err (if (s.now + millis duration) / 1000 == s.now / 1000 then banned else suspended)
  ban_blocks_login username row author duration reason t s s' up found unbanned set within =
      let (rows, same, up') = set_ban_row row.id author duration reason s s' up set in
      let ban : BanRow = record {
        id = row.id;
        bandate = s.now / 1000;
        unbandate = (s.now + millis duration) / 1000;
        bannedby = author;
        banreason = get_or reason [];
        active = schema.active_by_default;
      } in
      let listed : ban_row_of c schema row.id s' ≡ some ban = rw rows (
        first_where-append (λ (b : BanRow). b.id == row.id) s.account_banned ban unbanned
          (==-refl row.id)) in
      initiate_login_banned c schema username (record s' { now = t }) row ban up' (rw same found)
        listed (unfold is_banned in ground arith)
      ∙ (unfold is_permabanned in ground arith)
