-- ===== src/WorldServer/Login/Sound.antt =====
-- Who gets a session.
use azerust.Prelude.{
  ℕ, ◌≡◌, refl, ap, sym, ◌∙◌, Option, some, none, List, ◌==◌, ==_iff, bytes_eq, bytes_eq→eq,
  Bool-cases, Option-cases, inl, inr,
}
use azerust.Prelude.Maps.{insert}
use azerust.Prelude.Outcome.{Outcome, ok, err, panic, ok_or}
use azerust.Prelude.Exec.{bind_ok, lift, on_part, ◌>>=◌}
use azerust.Prelude.Falls.{raise_as_ok}
use azerust.Crypto.{Crypto}
use azerust.Bincode.{Bincode}
use azerust.Game.Accounts.{Account, AccountService, AccountOpError}
use azerust.Game.Characters.{CharacterService}
use azerust.Protocol.World.{auth_system_error, auth_session_expired}
use azerust.Protocol.HeaderCrypto.{Ciphers}
use azerust.Protocol.Packets.{AuthSession}
use azerust.WorldServer.Socket.{Writer}
use azerust.WorldServer.ServerPackets.{SessionError}
use azerust.WorldServer.Session.{Client, Clock, Session, new_session}
use azerust.WorldServer.World.{create_session}
use azerust.WorldServer.World.Joining.{with_session, create_session_ok}
use azerust.WorldServer.Login.{
  Server, server_proof, get_account, set_account, start_session, check, prove, handle_auth_session,
}

module _ (c : Crypto) (k : Ciphers) (e : Bincode) {A C : Type 0} (service : AccountService A)
    (characters : CharacterService C) (realm_id : ℕ) (realm_seed : List ℕ) (clock : Clock) where
  -- What has to hold of a login that gives a session, and the server behind it.
  pub record Joined (client : Client) (writer : Writer) (auth : AuthSession) (s s' : Server k A C)
      : Type 0 where
    pub account : Account
    pub session_key : List ℕ
    pub session : Session k
    pub same_realm : auth.realm_id ≡ realm_id
    pub first_login : client.account ≡ none
    pub known : (service.get_by_username auth.username s.accounts).0 ≡ ok (some account)
    pub has_key : account.session_key ≡ some session_key
    pub proved : auth.client_proof ≡ server_proof c realm_seed account auth session_key
    pub created :
        new_session k e clock
          (record client { account = some account.id })
          writer
          session_key
          auth.addons
        ≡ ok session
    pub joined : s' ≡ record {
      accounts = (service.get_by_username auth.username s.accounts).1;
      clients = insert client.id (record client { account = some account.id }) s.clients;
      world = with_session k e characters clock session s.world;
    }

  start_session_ok :
      (client : Client) (writer : Writer) (account : Account) (key : List ℕ) (auth : AuthSession)
      (s s' : Server k A C)
      → start_session c k e service characters realm_id realm_seed clock client writer account key
          auth s
        ≡ (ok tt, s')
      → (session : Session k) × (new_session k e clock
            (record client { account = some account.id })
            writer
            key
            auth.addons
          ≡ ok session)
        × (s' ≡ record s {
          clients = insert client.id (record client { account = some account.id }) s.clients;
          world = with_session k e characters clock session s.world;
        })
  unfolding start_session set_account
  start_session_ok client writer account key auth s s' h =
      let client' = record client { account = some account.id } in
      let s1 = record s { clients = insert client.id client' s.clients } in
      let (fine, same) =
        raise_as_ok (λ (p : SessionError × Writer). (auth_system_error, p.1))
          (on_part (λ (s : Server k A C). s.world) (λ s w. record s { world = w })
            (create_session k e characters clock client' writer key auth.addons))
          s1 tt (ap (λ r. r.0) h) in
      let (session, is, w') =
        create_session_ok k e characters clock client' writer key auth.addons s.world fine in
      (session, is, sym (ap (λ r. r.1) h) ∙ same ∙ ap (λ w. record s1 { world = w }) w')

  get_account_ok :
      (username : List ℕ) (writer : Writer) (s : Server k A C) (account : Account)
      → (get_account c k e service characters realm_id realm_seed clock username writer s).0
        ≡ ok account
      → ((service.get_by_username username s.accounts).0 ≡ ok (some account))
        × ((get_account c k e service characters realm_id realm_seed clock username writer s).1
            ≡ record s { accounts = (service.get_by_username username s.accounts).1 })
  unfolding get_account
  get_account_ok username writer s account h =
      from (service.get_by_username username s.accounts).0 refl
    where
      from :
          (r : Outcome AccountOpError (Option Account))
          → (service.get_by_username username s.accounts).0 ≡ r
          → (r ≡ ok (some account))
            × ((get_account c k e service characters realm_id realm_seed clock username writer s).1
                ≡ record s { accounts = (service.get_by_username username s.accounts).1 })
      from (ok (some found)) is =
          let h' = rw (is, get_account) at h in
          let same : found ≡ account = cc in (ap (λ a. ok (some a)) same, rw (is, get_account) refl)
      from (ok none) is = cc (rw (is, get_account) at h)
      from (err x) is = cc (rw (is, get_account) at h)
      from panic is = cc (rw (is, get_account) at h)

  check_ok :
      (client : Client) (writer : Writer) (auth : AuthSession) (account : Account) (key : List ℕ)
      (s s' : Server k A C)
      → check c k e service characters realm_id realm_seed clock client writer auth account key s
        ≡ (ok tt, s')
      → (auth.client_proof ≡ server_proof c realm_seed account auth key)
        × (start_session c k e service characters realm_id realm_seed clock client writer account
              key auth s
            ≡ (ok tt, s'))
  unfolding check
  check_ok client writer auth account key s s' h =
      elim (Bool-cases (bytes_eq auth.client_proof (server_proof c realm_seed account auth key))) [
        | inl right ↦ (bytes_eq→eq _ _ right, rw (right, check) at h)
        | inr wrong ↦ cc (rw (wrong, check) at h)
      ]

  prove_ok :
      (client : Client) (writer : Writer) (auth : AuthSession) (s s' : Server k A C)
      → auth.realm_id ≡ realm_id
      → client.account ≡ none
      → prove c k e service characters realm_id realm_seed clock client writer auth s ≡ (ok tt, s')
      → Joined client writer auth s s'
  unfolding prove
  prove_ok client writer auth s s' realm first h =
      let (account, got, more) =
        bind_ok
          (get_account c k e service characters realm_id realm_seed clock auth.username writer)
          (λ account. lift (ok_or account.session_key (auth_session_expired, writer)) >>= λ key.
            check c k e service characters realm_id realm_seed clock client writer auth account key)
          s tt s' h in
      elim (Option-cases account.session_key) [
        | inl no_key ↦ cc (rw no_key at more)
        | inr (key, has_key) ↦
            let (known, s1) = get_account_ok auth.username writer s account got in
            let checked = rw (has_key, s1) at more in
            let (proved, started) =
              check_ok client writer auth account key
                (record s { accounts = (service.get_by_username auth.username s.accounts).1 }) s'
                checked in
            let (session, created, joined) =
              start_session_ok client writer account key auth _ s' started in
            record {
              account = account;
              session_key = key;
              session = session;
              same_realm = realm;
              first_login = first;
              known = known;
              has_key = has_key;
              proved = proved;
              created = created;
              joined = joined;
            }
      ]

  -- A login that gives a session is for this realm and the first one of its client; the account
  -- service knows the account, which has a session key; the client's proof is the digest over the
  -- account's name, the two challenges and that key; and what changes is that the client has the
  -- account and that the session, which holds that key, stands in the map of the world.
  pub handle_auth_session_sound :
      (client : Client) (writer : Writer) (auth : AuthSession) (s s' : Server k A C)
      → handle_auth_session c k e service characters realm_id realm_seed clock client writer auth s
        ≡ (ok tt, s')
      → Joined client writer auth s s'
  unfolding handle_auth_session
  handle_auth_session_sound client writer auth s s' h =
      elim (Bool-cases (auth.realm_id == realm_id)) [
        | inr other ↦ cc (rw (other, handle_auth_session) at h)
        | inl same ↦ elim (Option-cases client.account) [
          | inr (id, again) ↦ cc (rw (same, again, handle_auth_session) at h)
          | inl first ↦
              prove_ok client writer auth s s' ((==_iff auth.realm_id realm_id).0 same) first
                (rw (same, first, handle_auth_session) at h)
        ]
      ]
