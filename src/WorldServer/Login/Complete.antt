-- ===== src/WorldServer/Login/Complete.antt =====
-- Who knows the session key gets a session.
use azerust.Prelude.{
  ℕ, ◌+◌, ◌*◌, ◌^◌, ◌<◌, ◌≡◌, refl, ap, ◌∙◌, some, none, true, List, [], ◌++◌, ◌==◌, ==_iff, length,
  map, bytes_eq, bytes_eq_refl,
}
use azerust.Prelude.Maps.{insert}
use azerust.Prelude.Outcome.{ok}
use azerust.Crypto.{Crypto}
use azerust.Bincode.{Bincode}
use azerust.Game.Accounts.{Account, AccountService}
use azerust.Game.Characters.{CharacterService}
use azerust.Protocol.World.{opcode_code}
use azerust.Protocol.HeaderCrypto.{Ciphers, synced, encrypt_key}
use azerust.Protocol.Packets.{AuthSession}
use azerust.WorldServer.Socket.{Writer}
use azerust.WorldServer.Session.{Client, Clock, Session, new_session}
use azerust.WorldServer.Session.Owner.{new_session-owner}
use azerust.WorldServer.Session.Delivery.{client_read}
use azerust.WorldServer.Session.Greeting.{greeting, new_session-greets}
use azerust.WorldServer.World.Joining.{with_session, create_session_made}
use azerust.WorldServer.Login.{
  Server, server_proof, is_some, get_account, set_account, start_session, check, prove,
  handle_auth_session,
}

module _ (c : Crypto) (k : Ciphers) (e : Bincode) {A C : Type 0} (service : AccountService A)
    (characters : CharacterService C) (realm_id : ℕ) (realm_seed : List ℕ) (clock : Clock) where
  start_session_made :
      (client : Client) (writer : Writer) (account : Account) (key : List ℕ) (auth : AuthSession)
      (session : Session k) (s : Server k A C)
      → new_session k e clock (record client { account = some account.id }) writer key auth.addons
        ≡ ok session
      → start_session c k e service characters realm_id realm_seed clock client writer account key
          auth s
        ≡ (
          ok tt,
          record s {
            clients = insert client.id (record client { account = some account.id }) s.clients;
            world = with_session k e characters clock session s.world;
          },
        )
  unfolding start_session set_account
  start_session_made client writer account key auth session s made =
      rw
        (create_session_made k e characters clock (record client { account = some account.id })
          writer key auth.addons session s.world made)
        refl

  -- A client that is not logged in yet, whose account service knows an account with a session key
  -- under the name that it sends, that proves to know the key, and whose addons fit into one
  -- packet, gets a session of that account for this realm; while the socket takes all bytes, it
  -- reads with that key, from the bytes that are written, the four packets that greet it.
  pub handle_auth_session_complete :
      (client : Client) (writer : Writer) (auth : AuthSession) (s : Server k A C)
      (account : Account) (key : List ℕ)
      → auth.realm_id ≡ realm_id
      → client.account ≡ none
      → (service.get_by_username auth.username s.accounts).0 ≡ ok (some account)
      → account.session_key ≡ some key
      → auth.client_proof ≡ server_proof c realm_seed account auth key
      → writer.limits ≡ []
      → length auth.addons * 8 + 3 < 2 ^ 16
      → (session : Session k) × (handle_auth_session c k e service characters realm_id realm_seed
            clock client writer auth s
          ≡ (
            ok tt,
            record {
              accounts = (service.get_by_username auth.username s.accounts).1;
              clients = insert client.id (record client { account = some account.id }) s.clients;
              world = with_session k e characters clock session s.world;
            },
          ))
        × (session.client ≡ record client { account = some account.id })
        × (bytes : List ℕ) × (session.stream.output ≡ writer.output ++ bytes)
        × (client_read k 4 (synced k encrypt_key key) bytes
            ≡ some (map (λ f. (opcode_code f.code, f.body)) (greeting k e clock auth.addons)))
  unfolding handle_auth_session prove check get_account is_some
  handle_auth_session_complete client writer auth s account key realm first known has_key proved
        whole few =
      let client' = record client { account = some account.id } in
      let (session, made, bytes, written, read) =
        new_session-greets k e clock client' writer key auth.addons whole few in
      let same : (auth.realm_id == realm_id) ≡ true = (==_iff auth.realm_id realm_id).1 realm in
      let right : bytes_eq auth.client_proof (server_proof c realm_seed account auth key) ≡ true =
        ap (λ p. bytes_eq p (server_proof c realm_seed account auth key)) proved
        ∙ bytes_eq_refl (server_proof c realm_seed account auth key) in
      (
        session,
        rw (same, first, known, has_key, right)
            (start_session_made client writer account key auth session
              (record s { accounts = (service.get_by_username auth.username s.accounts).1 }) made),
        ap (λ o. o.1) (new_session-owner k e clock client' writer key auth.addons session made),
        bytes,
        written,
        read,
      )
