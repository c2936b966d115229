-- ===== src/WorldServer/Login/Kept.antt =====
-- What a login, granted or refused, keeps of the world.
use azerust.Prelude.{ℕ, ◌≡◌, some, List}
use azerust.Prelude.Exec.{Exec, on_part}
use azerust.Prelude.Preserves.{
  Preserves, Preserves-match_result, Preserves-pure, Preserves-raise, preserves_rules,
}
use azerust.Crypto.{Crypto}
use azerust.Bincode.{Bincode}
use azerust.Game.Accounts.{Account, AccountService}
use azerust.Game.Characters.{CharacterService}
use azerust.Protocol.HeaderCrypto.{Ciphers}
use azerust.Protocol.Packets.{AuthSession, Addon}
use azerust.WorldServer.Socket.{Writer}
use azerust.WorldServer.Session.{Client, Clock, Session}
use azerust.WorldServer.Session.Owner.{owner, new_session-owner}
use azerust.WorldServer.World.{World, create_session}
use azerust.WorldServer.World.Joining.{with_session, create_session-Preserves}
use azerust.WorldServer.Login.{
  Server, get_account, set_account, start_session, check, prove, handle_auth_session,
}

module _ (c : Crypto) (k : Ciphers) (e : Bincode) {A C : Type 0} (service : AccountService A)
    (characters : CharacterService C) (realm_id : ℕ) (realm_seed : List ℕ) (clock : Clock)
    (P : World k C → Type 0)
    (closed : (session : Session k) (w : World k C) (client : Client) (id : ℕ)
      → owner k e session ≡ (client.id, record client { account = some id })
      → P w
      → P (with_session k e characters clock session w)) where
  abbrev Kept : Server k A C → Type 0
  Kept s = P s.world

  get_account-Preserves :
      (username : List ℕ) (writer : Writer)
      → Preserves Kept
          (get_account c k e service characters realm_id realm_seed clock username writer)
  unfolding get_account
  get_account-Preserves username writer = search (preserves_rules, asked) depth 9
    where
      asked :
          {E T : Type 0} (m : Exec A E T)
          → Preserves Kept
              (on_part (λ (s : Server k A C). s.accounts) (λ s a. record s { accounts = a }) m)
      asked m = record { at = λ s p. p }

  create-Preserves :
      (client : Client) (id : ℕ) (writer : Writer) (key : List ℕ) (addons : List Addon)
      → Preserves Kept (
          on_part
            (λ (s : Server k A C). s.world)
            (λ s w. record s { world = w })
            (create_session k e characters clock
              (record client { account = some id })
              writer
              key
              addons))
  create-Preserves client id writer key addons =
      let client' = record client { account = some id } in
      let made =
        create_session-Preserves k e characters clock P client' writer key addons (λ session w is p.
          closed session w client id
            (new_session-owner k e clock client' writer key addons session is) p) in
      record { at = λ s p. made.at s.world p }

  start_session-Preserves :
      (client : Client) (writer : Writer) (account : Account) (key : List ℕ) (auth : AuthSession)
      → Preserves Kept (
          start_session c k e service characters realm_id realm_seed clock client writer account key
            auth)
  unfolding start_session set_account
  start_session-Preserves client writer account key auth = record {
    at = λ s p.
        (Preserves-match_result _ _ _ (create-Preserves client account.id writer key auth.addons)
            (λ a. Preserves-pure a) (λ x. Preserves-raise _)).at
          _ p;
  }

  check-Preserves :
      (client : Client) (writer : Writer) (auth : AuthSession) (account : Account) (key : List ℕ)
      → Preserves Kept
          (check c k e service characters realm_id realm_seed clock client writer auth account key)
  unfolding check
  check-Preserves client writer auth account key =
      search (preserves_rules, start_session-Preserves) depth 9

  prove-Preserves :
      (client : Client) (writer : Writer) (auth : AuthSession)
      → Preserves Kept (prove c k e service characters realm_id realm_seed clock client writer auth)
  unfolding prove
  prove-Preserves client writer auth =
      search (preserves_rules, get_account-Preserves, check-Preserves) depth 9

  pub handle_auth_session-Preserves :
      (client : Client) (writer : Writer) (auth : AuthSession)
      → Preserves Kept (
          handle_auth_session c k e service characters realm_id realm_seed clock client writer auth)
  unfolding handle_auth_session
  handle_auth_session-Preserves client writer auth =
      search (preserves_rules, prove-Preserves) depth 9
