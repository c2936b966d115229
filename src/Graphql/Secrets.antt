-- ===== src/Graphql/Secrets.antt =====
-- What the interface shows of the accounts.
use azerust.Prelude.{ℕ, ◌≡◌, refl, ap, Option, List, [], ◌∷◌, map, Option-cases, inl, inr, arith}
use mathlib.Core.Option
use azerust.Crypto.{Crypto}
use azerust.MysqlAuth.Db.{AccountRow, Db, Schema, attempt, first_where}
use azerust.MysqlAuth.Accounts.{list_account, get_by_username, service}
use azerust.MysqlAuth.Statements.{account_of}
use azerust.Graphql.{Account, account_from, get_users, get_user}

-- The database with other secrets: the salt, the verifier and the session key of each account.
module _ (salt verifier : AccountRow → List ℕ) (key : AccountRow → Option (List ℕ)) where
  abbrev pub with_secret : AccountRow → AccountRow
  with_secret r = record r { salt = salt r; verifier = verifier r; session_key_auth = key r }

  abbrev pub with_secrets : Db → Db
  with_secrets s = record s { account = map with_secret s.account }

  shown_same :
      (rows : List AccountRow)
      → map account_from (map account_of (map with_secret rows))
        ≡ map account_from (map account_of rows)
  unfolding account_from account_of
  shown_same [] = refl
  shown_same (r ∷ rows) =
      ap (λ (rest : List Account). account_from (account_of r) ∷ rest) (shown_same rows)

  module _ (c : Crypto) (schema : Schema) where
    first_same :
        (username : List ℕ) (rows : List AccountRow)
        → first_where
            (λ (r : AccountRow). schema.same_text r.username username)
            (map with_secret rows)
          ≡ Option.map with_secret
              (first_where (λ (r : AccountRow). schema.same_text r.username username) rows)
    unfolding first_where
    first_same username [] = refl
    first_same username (r ∷ rows) = ground (arith, first_same username rows)

    users_same :
        (s : Db)
        → (get_users (service c schema) (with_secrets s)).0 ≡ (get_users (service c schema) s).0
    unfolding get_users list_account attempt
    users_same s = ground (arith, shown_same s.account)

    user_same :
        (username : List ℕ) (s : Db)
        → (get_user (service c schema) username (with_secrets s)).0
          ≡ (get_user (service c schema) username s).0
    unfolding get_user get_by_username attempt account_of account_from
    user_same username s =
        elim (Option-cases
          (first_where (λ (r : AccountRow). schema.same_text r.username username) s.account)) [
            | inl absent ↦ ground (arith, first_same username s.account)
            | inr (row, found) ↦ ground (arith, first_same username s.account)
          ]

    -- What the interface tells of the accounts does not depend on their salts, verifiers and session
    -- keys: with any others it gives the same answers, for the list and for each name.
    pub answers_hide_secrets :
        (username : List ℕ) (s : Db)
        → ((get_users (service c schema) (with_secrets s)).0 ≡ (get_users (service c schema) s).0)
          × ((get_user (service c schema) username (with_secrets s)).0
              ≡ (get_user (service c schema) username s).0)
    answers_hide_secrets username s = (users_same s, user_same username s)
