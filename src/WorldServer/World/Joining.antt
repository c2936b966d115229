-- ===== src/WorldServer/World/Joining.antt =====
-- A session that is created stands in the map of the world.
use azerust.Prelude.{ℕ, ◌≡◌, refl, List}
use azerust.Prelude.Maps.{insert}
use azerust.Prelude.Outcome.{Outcome, ok, err, panic}
use azerust.Prelude.Preserves.{Preserves}
use azerust.Bincode.{Bincode}
use azerust.Game.Characters.{CharacterService}
use azerust.Protocol.HeaderCrypto.{Ciphers}
use azerust.Protocol.Packets.{Addon}
use azerust.WorldServer.Socket.{Writer}
use azerust.WorldServer.ServerPackets.{SessionError}
use azerust.WorldServer.Session.{Client, Clock, Session, new_session}
use azerust.WorldServer.World.{World, inserted, create_session}

module _ (k : Ciphers) (e : Bincode) {C : Type 0} (characters : CharacterService C)
    (clock : Clock) where
  abbrev pub with_session : Session k → World k C → World k C
  with_session session w = record w { sessions = insert session.client_id session w.sessions }

  pub create_session_ok :
      (client : Client) (writer : Writer) (key : List ℕ) (addons : List Addon) (w : World k C)
      → (create_session k e characters clock client writer key addons w).0 ≡ ok tt
      → (session : Session k) × (new_session k e clock client writer key addons ≡ ok session)
        × ((create_session k e characters clock client writer key addons w).1
            ≡ with_session session w)
  unfolding create_session inserted
  create_session_ok client writer key addons w h =
      from (new_session k e clock client writer key addons) refl
    where
      from :
          (r : Outcome (SessionError × Writer) (Session k))
          → new_session k e clock client writer key addons ≡ r
          → (session : Session k) × (new_session k e clock client writer key addons ≡ ok session)
            × ((create_session k e characters clock client writer key addons w).1
                ≡ with_session session w)
      from (ok session) is = (session, is, rw is refl)
      from (err x) is = cc (rw is at h)
      from panic is = cc (rw is at h)

  -- what holds of the world also behind a session that is put into it
  pub create_session-Preserves :
      (P : World k C → Type 0) (client : Client) (writer : Writer) (key : List ℕ)
      (addons : List Addon)
      → ((session : Session k) (w : World k C)
          → new_session k e clock client writer key addons ≡ ok session
          → P w
          → P (with_session session w))
      → Preserves P (create_session k e characters clock client writer key addons)
  unfolding create_session inserted
  create_session-Preserves P client writer key addons closed = record {
    at = λ w. from w (new_session k e clock client writer key addons) refl;
  }
    where
      from :
          (w : World k C) (r : Outcome (SessionError × Writer) (Session k))
          → new_session k e clock client writer key addons ≡ r
          → P w
          → P (inserted k e characters clock w r).1
      from w (ok session) is p = closed session w is p
      from w (err x) is p = p
      from w panic is p = p

  pub create_session_made :
      (client : Client) (writer : Writer) (key : List ℕ) (addons : List Addon) (session : Session k)
      (w : World k C)
      → new_session k e clock client writer key addons ≡ ok session
      → create_session k e characters clock client writer key addons w
        ≡ (ok tt, with_session session w)
  unfolding create_session inserted
  create_session_made client writer key addons session w made = rw made refl
