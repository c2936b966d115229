-- ===== src/MysqlAuth/Accounts/Registration.antt =====
-- Registrations against the tables.
use azerust.Prelude.{
  ℕ, suc, ◌%◌, ◌^◌, ◌≡◌, ◌≤◌, refl, inl, inr, List, [], ◌∷◌, ◌++◌, length, arith, Bool-cases, ltb,
}
use azerust.Prelude.Outcome.{Outcome, Never, ok, err, panic, infallible}
use azerust.Prelude.Outcome
use azerust.Prelude.Exec.{lift, ◌>>=◌}
use azerust.Crypto.{Crypto}
use azerust.Srp
use azerust.MysqlAuth.Db.{AccountRow, Db, Schema, attempt, draw, unix_timestamp}
use azerust.MysqlAuth.Accounts.{create_account, store_account}
use azerust.MysqlAuth.Statements.{ascii_uppercase}

module _ (c : Crypto) (schema : Schema) where
  store_account_sound :
      (username email verifier salt : List ℕ) (id : ℕ) (s s' : Db)
      → store_account c schema username email (verifier, salt) s ≡ (ok id, s')
      → (s'.account
          ≡ s.account
            ++ record schema.new_account {
              id = s.next_account;
              username = username;
              salt = salt;
              verifier = verifier;
              reg_mail = email;
              email = email;
              joindate = unix_timestamp s;
            }
              ∷ [])
        × (id ≡ s.next_account % 2 ^ 32)
  unfolding store_account attempt
  store_account_sound username email verifier salt id s s' h = ground arith

  enrol_sound :
      (username email salt : List ℕ) (made : Outcome Never (List ℕ)) (id : ℕ) (s s' : Db)
      → (lift (infallible (Outcome.◌>>=◌ made (λ v. ok (v, salt))))
            >>= store_account c schema username email)
          s
        ≡ (ok id, s')
      → (verifier : List ℕ) × (made ≡ ok verifier)
        × (store_account c schema username email (verifier, salt) s ≡ (ok id, s'))
  enrol_sound username email salt (ok v) id s s' h = (v, refl, h)
  enrol_sound username email salt (err e) id s s' h = elim e [ ]
  enrol_sound username email salt panic id s s' h = cc

  -- A registration that returns stores one new row, under the next number, with the name in upper
  -- case, and a verifier made of the upper-case credentials and the salt in that row; names and
  -- passwords are at most 16 bytes long.
  pub create_account_sound :
      (username password email : List ℕ) (id : ℕ) (s s' : Db)
      → create_account c schema username password email s ≡ (ok id, s')
      → (row : AccountRow) × (s'.account ≡ s.account ++ row ∷ [])
        × (row.username ≡ ascii_uppercase username)
        × (row.email ≡ email)
        × (Srp.from_credentials c row.username (ascii_uppercase password) row.salt
            ≡ ok row.verifier)
        × (id ≡ row.id % 2 ^ 32)
        × (length username ≤ 16)
        × (length password ≤ 16)
  unfolding create_account
  create_account_sound username password email id s s' h =
      elim (Bool-cases (ltb 16 (length username))) [
        | inl long ↦ cc (rw long at h)
        | inr fits ↦ elim (Bool-cases (ltb 16 (length password))) [
          | inl long ↦ cc (rw (fits, long) at h)
          | inr fits' ↦
              let (verifier, made, stored) =
                enrol_sound (ascii_uppercase username) email (s.draws s.drawn)
                  (Srp.from_credentials c (ascii_uppercase username) (ascii_uppercase password)
                    (s.draws s.drawn))
                  id (record s { drawn = suc s.drawn }) s'
                  (unfold draw Srp.register in rw (fits, fits') at h) in
              let (rows, number) =
                store_account_sound (ascii_uppercase username) email verifier (s.draws s.drawn) id
                  (record s { drawn = suc s.drawn }) s' stored in
              (
                record schema.new_account {
                  id = s.next_account;
                  username = ascii_uppercase username;
                  salt = s.draws s.drawn;
                  verifier = verifier;
                  reg_mail = email;
                  email = email;
                  joindate = unix_timestamp s;
                },
                rows,
                refl,
                refl,
                made,
                number,
                ground arith,
                ground arith,
              )
        ]
      ]
