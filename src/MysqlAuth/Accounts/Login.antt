-- ===== src/MysqlAuth/Accounts/Login.antt =====
-- Logins and reconnects against the tables.
use azerust.Prelude.{
  if◌then◌else◌, Option-cases, inl, inr, ℕ, ◌≡◌, refl, ◌⊎◌, Option, some, none, Bool, true, false,
  ◌&&◌, List, [], ◌∷◌, length, ◌==◌, arith, ap, ◌∙◌, All,
}
use azerust.Prelude.Text.{codes}
use azerust.Prelude.Outcome.{Outcome, ok, err, panic}
use azerust.Prelude.Exec.{lift, bind_ok}
use azerust.Crypto.{Crypto}
use azerust.Game.Accounts.{
  LoginFailure, ReconnectToken, database_error, Account, suspended, banned, ConnectToken,
  connect_token, connect_accept,
}
use azerust.MysqlAuth.Db.{
  AccountRow, BanRow, Db, Schema, attempt, draw, unix_timestamp, is_permabanned, is_banned,
  first_where, update_where,
}
use azerust.MysqlAuth.Accounts.{
  ban_of, get_by_username, initiate_login, initiate_relogin, complete_login, logged_in,
}
use azerust.MysqlAuth.Statements.{with_ban, account_of, ban_status_of, has_key}

-- What a token for a reconnect is good for: all of it that is used, and nothing of the ban.
abbrev pub handed_out :
    Outcome LoginFailure ReconnectToken → Outcome LoginFailure (ℕ × List ℕ × List ℕ × List ℕ)
handed_out (ok token) =
    ok (token.account.id, token.account.username, token.session_key, token.reconnect_proof)
handed_out (err failure) = err failure
handed_out panic = panic

-- The row with a session key and the number that is drawn decide alone.
abbrev pub keyed_token :
    Option AccountRow → List ℕ → Outcome LoginFailure (ℕ × List ℕ × List ℕ × List ℕ)
keyed_token none proof = err database_error
keyed_token (some row) proof = elim row.session_key_auth [
  | none ↦ err database_error
  | some key ↦
      if length key == 40 then ok (row.id, row.username, key, proof) else err database_error
]

module _ (c : Crypto) (schema : Schema) where
  -- The row that a user name selects, and the ban row that `get_by_username` looks at.
  abbrev pub row_of : List ℕ → Db → Option AccountRow
  row_of username s =
      first_where (λ (r : AccountRow). schema.same_text r.username username) s.account

  abbrev pub ban_row_of : ℕ → Db → Option BanRow
  ban_row_of id s = first_where (λ (b : BanRow). b.id == id) s.account_banned

  -- With the database up, an account is found with the columns of its row.
  pub get_by_username_up :
      (username : List ℕ) (s : Db) (row : AccountRow)
      → s.faults ≡ []
      → row_of username s ≡ some row
      → (account : Account) × ((get_by_username c schema username s).0 ≡ ok (some account))
        × (account.session_key ≡ row.session_key_auth)
        × (account.username ≡ row.username)
        × (account.id ≡ row.id)
  unfolding get_by_username ban_of attempt account_of with_ban
  get_by_username_up username s row up found = elim (Option-cases (ban_row_of row.id s)) [
    | inl free ↦ (account_of row, ground arith, refl, refl, refl)
    | inr (ban, barred) ↦
        (with_ban (account_of row) (some ban) (unix_timestamp s), ground arith, refl, refl, refl)
  ]

  -- With the database up, a login of an account whose first ban row is permanent is refused as
  -- banned, and one whose first ban row is temporary and not over as suspended.
  pub initiate_login_banned :
      (username : List ℕ) (s : Db) (row : AccountRow) (ban : BanRow)
      → s.faults ≡ []
      → row_of username s ≡ some row
      → ban_row_of row.id s ≡ some ban
      → is_banned (unix_timestamp s) ban ≡ true
      → (initiate_login c schema username s).0
        ≡ err (elim (is_permabanned ban) [ true ↦ banned | false ↦ suspended ])
  unfolding initiate_login get_by_username attempt ban_status_of account_of is_banned
  initiate_login_banned username s row ban up found ban_found active = ground arith

  -- A login that hands out a token found an account by that name, which has no ban row or one that
  -- is over; the token's server is made of the account's name, salt and verifier.
  pub initiate_login_sound :
      (username : List ℕ) (s : Db) (token : ConnectToken)
      → s.faults ≡ []
      → (initiate_login c schema username s).0 ≡ ok token
      → (row : AccountRow) × (row_of username s ≡ some row)
        × ((ban_row_of row.id s ≡ none)
            ⊎ ((ban : BanRow) × (ban_row_of row.id s ≡ some ban)
                × (is_banned (unix_timestamp s) ban ≡ false)))
        × (connect_token c row.username row.salt row.verifier (s.draws s.drawn) ≡ ok token)
  unfolding initiate_login get_by_username attempt ban_status_of account_of draw is_banned
  initiate_login_sound username s token up h = ground arith

  -- The row that a reconnect selects, and the ban row that is joined to it.
  abbrev pub keyed_row_of : List ℕ → Db → Option AccountRow
  keyed_row_of username s =
      first_where (λ (r : AccountRow). schema.same_text r.username username && has_key r) s.account

  -- With the database up, the first account of that name with a session key gets a token for a
  -- reconnect exactly when that key has 40 bytes, and what the token is good for comes from the row:
  -- the table of the bans has no part in it, however an account is banned.
  pub relogin_ignores_ban :
      (username : List ℕ) (s : Db)
      → s.faults ≡ []
      → handed_out (initiate_relogin c schema username s).0
        ≡ keyed_token (keyed_row_of username s) (s.draws s.drawn)
  unfolding initiate_relogin attempt draw
  relogin_ignores_ban username s up = ground arith

  logged_in_stores :
      (proof key server_proof : List ℕ) (s s' : Db)
      → logged_in c schema (proof, key) s ≡ (ok server_proof, s')
      → (proof ≡ server_proof)
        × (s'.account
            ≡ update_where
                (λ (r : AccountRow). schema.same_text r.username (codes "ARLYON"))
                (λ (r : AccountRow). record r {
                  session_key_auth = some key;
                  last_ip = codes "0.0.0.0";
                  last_login = some (unix_timestamp s);
                  locale = 0;
                  failed_logins = 0;
                  os = codes "Win";
                })
                s.account)
  unfolding logged_in attempt
  logged_in_stores proof key server_proof s s' h = ground arith

  -- A login that completes has had its proof accepted, and stores the session key in the rows named
  -- ARLYON, whoever logged in; all other rows, and all rows of a login that fails at the proof, stay.
  pub complete_login_stores :
      (token : ConnectToken) (public_key client_proof server_proof : List ℕ) (s s' : Db)
      → complete_login c schema token public_key client_proof s ≡ (ok server_proof, s')
      → (key : List ℕ) × (connect_accept c token public_key client_proof ≡ ok (server_proof, key))
        × (s'.account
            ≡ update_where
                (λ (r : AccountRow). schema.same_text r.username (codes "ARLYON"))
                (λ (r : AccountRow). record r {
                  session_key_auth = some key;
                  last_ip = codes "0.0.0.0";
                  last_login = some (unix_timestamp s);
                  locale = 0;
                  failed_logins = 0;
                  os = codes "Win";
                })
                s.account)
  unfolding complete_login
  complete_login_stores token public_key client_proof server_proof s s' h =
      let ((proof, key), accepted, rest) =
        bind_ok (lift (connect_accept c token public_key client_proof)) (logged_in c schema) s
          server_proof s' h in
      let (same, stored) = logged_in_stores proof key server_proof s s' rest in
      (key, accepted ∙ ap (λ (p : List ℕ). ok (p, key)) same, stored)

  update_where_none :
      (p : AccountRow → Bool) (f : AccountRow → AccountRow) (rows : List AccountRow)
      → All (λ r. p r ≡ false) rows
      → update_where p f rows ≡ rows
  unfolding update_where
  update_where_none p f [] h = refl
  update_where_none p f (r ∷ rows) (hr, h) =
      rw (hr, update_where) (ap (λ t. r ∷ t) (update_where_none p f rows h))

  -- Where no account is named ARLYON, a completed login changes no account: the session key of the
  -- user who logged in is not stored.
  pub complete_login_forgets_key :
      (token : ConnectToken) (public_key client_proof server_proof : List ℕ) (s s' : Db)
      → All (λ (r : AccountRow). schema.same_text r.username (codes "ARLYON") ≡ false) s.account
      → complete_login c schema token public_key client_proof s ≡ (ok server_proof, s')
      → s'.account ≡ s.account
  complete_login_forgets_key token public_key client_proof server_proof s s' others h =
      (complete_login_stores token public_key client_proof server_proof s s' h).2
      ∙ update_where_none _ _ s.account others
