-- ===== src/MysqlAuth/Accounts/Completion.antt =====
-- A whole login, from the user's name to the server's proof.
use azerust.Prelude.{ℕ, ◌%◌, ◌^◌, ◌<◌, ◌≡◌, some, List, [], ◌++◌, arith, le_value}
use azerust.Prelude.Outcome.{ok, ◌>>=◌}
use azerust.Crypto.{Crypto}
use azerust.Srp.{
  from_credentials, new_with_b, expected_proof, derive_session_key, get_server_proof,
  verify_challenge_response,
}
use azerust.Srp.Sizes.{modulus, sized}
use azerust.Srp.Agreement.{verify_accepts_client}
use azerust.Srp.Premaster.{client_secret}
use azerust.Game.Accounts.{ConnectToken, connect_token, connect_accept, proof_and_key}
use azerust.MysqlAuth.Db.{AccountRow, Db, Schema, attempt}
use azerust.MysqlAuth.Accounts.{initiate_login, complete_login, logged_in}
use azerust.MysqlAuth.Accounts.Login.{row_of, initiate_login_sound}

module _ (c : Crypto) (schema : Schema) where
  open c use {sha1}

  pub connect_token_ok :
      (username salt verifier b : List ℕ) (token : ConnectToken)
      → connect_token c username salt verifier b ≡ ok token
      → new_with_b c username salt verifier b ≡ ok token.server
  unfolding connect_token
  connect_token_ok username salt verifier b token h = ground arith

  connect_accept_ok :
      (token : ConnectToken) (a_pub proof key : List ℕ)
      → verify_challenge_response c token.server a_pub proof ≡ ok (some key)
      → connect_accept c token a_pub proof ≡ ok (sha1 (a_pub ++ (proof ++ key)), key)
  unfolding connect_accept proof_and_key get_server_proof
  connect_accept_ok token a_pub proof key h = rw h

  -- With the database up, a user who knows the password of the account that the name selects, and
  -- to whom a login has handed a token, completes the login: the answer is the digest over its
  -- public key, its proof and the session key that it computed itself. The verifier of the account
  -- is the registered one, A is not 0, and the secret has 32 bytes.
  pub login_completes :
      (name password a_pub key : List ℕ) (a : ℕ) (row : AccountRow) (s s' : Db)
      (token : ConnectToken)
      → s.faults ≡ []
      → s'.faults ≡ []
      → row_of c schema name s ≡ some row
      → from_credentials c row.username password row.salt ≡ ok row.verifier
      → (initiate_login c schema name s).0 ≡ ok token
      → le_value a_pub ≡ 7 ^ a % modulus
      → 0 < 7 ^ a % modulus
      → (sized c (client_secret c row.username password row.salt a a_pub token.server.b_pub)
          >>= derive_session_key c)
        ≡ ok key
      → (complete_login c schema token a_pub
          (expected_proof c (sha1 row.username) row.salt a_pub token.server.b_pub key)
          s').0
        ≡ ok (
            sha1 (
              a_pub
              ++ (expected_proof c (sha1 row.username) row.salt a_pub token.server.b_pub key
                  ++ key)))
  unfolding complete_login logged_in attempt
  login_completes name password a_pub key a row s s' token up up' found known issued ha pos hk =
      let (row', found', _, made) = initiate_login_sound c schema name s token up issued in
      let same : row' ≡ row = cc in
      let started : new_with_b c row.username row.salt row.verifier (s.draws s.drawn)
          ≡ ok token.server =
        connect_token_ok row.username row.salt row.verifier (s.draws s.drawn) token
          (rw same at made) in
      let accepted =
        connect_accept_ok token a_pub
          (expected_proof c (sha1 row.username) row.salt a_pub token.server.b_pub key) key
          (verify_accepts_client c row.username password row.salt row.verifier (s.draws s.drawn)
            a_pub key a token.server known started ha pos hk) in
      ground arith
