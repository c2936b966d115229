-- ===== src/WorldServer/Clients/Kept.antt =====
-- What holds of the world also behind a new session, the way to the loop of a connection keeps.
use azerust.Prelude.{ℕ, ◌≡◌, some, List, [], ◌∷◌}
use azerust.Prelude.Exec.{on_part}
use azerust.Prelude.Preserves.{Preserves, preserves_rules}
use azerust.Bincode.{Bincode}
use azerust.Protocol.HeaderCrypto.{Ciphers}
use azerust.Protocol.Packets.{ClientPacket, AuthSession, auth_session}
use azerust.Crypto.{Crypto}
use azerust.Game.Accounts.{AccountService}
use azerust.Game.Characters.{CharacterService}
use azerust.WorldServer.Decode.{Zlib}
use azerust.WorldServer.Socket.{Writer}
use azerust.WorldServer.Session.{Client, Clock, Session}
use azerust.WorldServer.Session.Owner.{owner}
use azerust.WorldServer.World.{World}
use azerust.WorldServer.World.Joining.{with_session}
use azerust.WorldServer.Login.{handle_auth_session}
use azerust.WorldServer.Login.Kept.{handle_auth_session-Preserves}
use azerust.WorldServer.Clients.{Visit, first_packets, get_client, log_in, connect}

module _ (c : Crypto) (k : Ciphers) (e : Bincode) (z : Zlib) {A C : Type 0}
    (service : AccountService A) (characters : CharacterService C) (realm_id : ℕ)
    (realm_seed : List ℕ) (clock : Clock) (P : World k C → Type 0)
    (closed : (session : Session k) (w : World k C) (client : Client) (id : ℕ)
      → owner k e session ≡ (client.id, record client { account = some id })
      → P w
      → P (with_session k e characters clock session w)) where
  abbrev KeptHere : Visit k A C → Type 0
  KeptHere x = P x.server.world

  first_packets-Preserves :
      Preserves KeptHere (first_packets c k e z service characters realm_id realm_seed clock)
  unfolding first_packets
  first_packets-Preserves = record { at = λ x p. p }

  get_client-Preserves :
      (id : ℕ)
      → Preserves KeptHere (get_client c k e z service characters realm_id realm_seed clock id)
  unfolding get_client
  get_client-Preserves id = record { at = λ x p. p }

  auth-Preserves :
      (client : Client) (writer : Writer) (auth : AuthSession)
      → Preserves KeptHere (
          on_part
            (λ (x : Visit k A C). x.server)
            (λ x s. record x { server = s })
            (handle_auth_session c k e service characters realm_id realm_seed clock client writer
              auth))
  auth-Preserves client writer auth =
      let kept =
        handle_auth_session-Preserves c k e service characters realm_id realm_seed clock P closed
          client writer auth in
      record { at = λ x p. kept.at x.server p }

  log_in-Preserves :
      (id : ℕ) (writer : Writer) (packets : List ClientPacket)
      → Preserves KeptHere
          (log_in c k e z service characters realm_id realm_seed clock id writer packets)
  unfolding log_in
  log_in-Preserves id writer [] = search preserves_rules
  log_in-Preserves id writer (auth_session auth ∷ packets) =
      search (preserves_rules, get_client-Preserves, auth-Preserves) depth 9
  log_in-Preserves id writer (p ∷ packets) = search preserves_rules

  pub connect-Kept :
      (id : ℕ) (writer : Writer)
      → Preserves KeptHere (connect c k e z service characters realm_id realm_seed clock id writer)
  unfolding connect
  connect-Kept id writer =
      search (preserves_rules, first_packets-Preserves, log_in-Preserves) depth 9
