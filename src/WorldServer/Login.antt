-- ===== src/WorldServer/Login.antt =====
-- `handle_auth_session` of services/world/src/worldserver.rs: the client's proof that it knows the session
-- key of its account, and the session that it gets for it.
pub mod Sound
pub mod Kept
pub mod Complete
pub mod AfterAuth
pub mod CarriedOver
use azerust.Prelude.{
  ℕ, Option, some, none, Bool, true, false, not, List, [], ◌∷◌, ◌++◌, ◌==◌, bytes_eq, if◌then◌else◌,
}
use azerust.Prelude.Maps.{find, insert}
use azerust.Prelude.Outcome.{Outcome, ok, err, panic, ok_or}
use azerust.Prelude.Exec.{
  Exec, pure, raise, lift, modify, raise_as, match_result, on_part, ◌>>=◌, ◌>>◌,
}
use azerust.Crypto.{Crypto}
use azerust.Bincode.{Bincode}
use azerust.Game.Accounts.{Account, AccountService}
use azerust.Game.Characters.{CharacterService}
use azerust.Protocol.World.{
  ResponseCode, realm_list_realm_not_found, auth_already_online, auth_unknown_account,
  auth_session_expired, auth_reject, auth_system_error,
}
use azerust.Protocol.HeaderCrypto.{Ciphers}
use azerust.Protocol.Packets.{AuthSession}
use azerust.WorldServer.Socket.{Writer}
use azerust.WorldServer.Session.{Client, Clock}
use azerust.WorldServer.World.{World, create_session}

module _ (k : Ciphers) (A C : Type 0) where
  pub record Server : Type 0 where
    pub accounts : A
    pub clients : List (ℕ × Client)
    pub world : World k C

-- what the client has to send
unfoldable pub server_proof : Crypto → List ℕ → Account → AuthSession → List ℕ → List ℕ
server_proof c realm_seed account auth session_key = c.sha1 (
    account.username
    ++ (0 ∷ 0 ∷ 0 ∷ 0 ∷ [] ++ (auth.local_challenge ++ (realm_seed ++ session_key))))

is_some : {T : Type 0} → Option T → Bool
is_some none = false
is_some (some _) = true

module _ (c : Crypto) (k : Ciphers) (e : Bincode) {A C : Type 0} (service : AccountService A)
    (characters : CharacterService C) (realm_id : ℕ) (realm_seed : List ℕ) (clock : Clock) where
  abbrev Auth : Type 0 → Type 0
  Auth T = Exec (Server k A C) (ResponseCode × Writer) T

  -- `Ok(Some(e)) => e`, and whatever else is an unknown account
  get_account : List ℕ → Writer → Auth Account
  get_account username writer =
      match_result
        (on_part (λ s. s.accounts) (λ s a. record s { accounts = a })
          (service.get_by_username username))
        (λ found. lift (ok_or found (auth_unknown_account, writer)))
        (λ _. raise (auth_unknown_account, writer))

  -- the client is the object that stands in the server's map
  set_account : Client → ℕ → Auth Client
  set_account client id s =
      let client' = record client { account = some id } in
      (ok client', record s { clients = insert client.id client' s.clients })

  start_session : Client → Writer → Account → List ℕ → AuthSession → Auth (Unit {0})
  unfolding set_account
  start_session client writer account session_key auth = do
    client' ← set_account client account.id
    raise_as (λ p. (auth_system_error, p.1))
        (on_part (λ s. s.world) (λ s w. record s { world = w })
          (create_session k e characters clock client' writer session_key auth.addons))

  check : Client → Writer → AuthSession → Account → List ℕ → Auth (Unit {0})
  unfolding start_session server_proof
  check client writer auth account session_key =
      if not (bytes_eq auth.client_proof (server_proof c realm_seed account auth session_key))
      then raise (auth_reject, writer)
      else start_session client writer account session_key auth

  prove : Client → Writer → AuthSession → Auth (Unit {0})
  unfolding check get_account
  prove client writer auth = do
    account ← get_account auth.username writer
    session_key ← lift (ok_or account.session_key (auth_session_expired, writer))
    check client writer auth account session_key

  unfoldable pub handle_auth_session : Client → Writer → AuthSession → Auth (Unit {0})
  unfolding prove is_some
  handle_auth_session client writer auth =
      if not (auth.realm_id == realm_id)
      then raise (realm_list_realm_not_found, writer)
      else if is_some client.account
      then raise (auth_already_online, writer)
      else prove client writer auth
