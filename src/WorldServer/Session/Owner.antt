-- ===== src/WorldServer/Session/Owner.antt =====
-- Whatever a session sends, it keeps its client.
use azerust.Prelude.{ℕ, ◌≡◌, refl, List}
use mathlib.Core.Path.{subst}
use azerust.Prelude.Outcome.{Outcome, ok, err, panic}
use azerust.Prelude.Exec.{◌>>=◌}
use azerust.Prelude.Preserves.{Preserves, preserves_rules}
use azerust.Bincode.{Bincode}
use azerust.Protocol.World.{OpCode}
use azerust.Protocol.HeaderCrypto.{Ciphers}
use azerust.Protocol.Packets.{
  Addon, ServerPacket, auth_response, addon_info, client_cache_version, tutorial_data,
}
use azerust.WorldServer.Socket.{Writer}
use azerust.WorldServer.ServerPackets.{SessionError}
use azerust.WorldServer.Session.{
  Client, Clock, Session, encrypt_headers, write_packet, send_packet, finalize, finalized,
  fresh_session, new_session,
}

module _ (k : Ciphers) (e : Bincode) where
  -- who a session belongs to
  abbrev pub owner : Session k → ℕ × Client
  owner s = (s.client_id, s.client)

  module _ (o : ℕ × Client) where
    abbrev IsOf : Session k → Type 0
    IsOf s = owner s ≡ o

    encrypt_headers-Preserves : (header : List ℕ) → Preserves IsOf (encrypt_headers k header)
    unfolding encrypt_headers
    encrypt_headers-Preserves header = record { at = λ s h. h }

    write_packet-Preserves :
        (code : OpCode) (bytes : List ℕ) → Preserves IsOf (write_packet k e code bytes)
    unfolding write_packet
    write_packet-Preserves code bytes = search (preserves_rules, encrypt_headers-Preserves) depth 9

    pub send_packet-Preserves :
        (clock : Clock) (p : ServerPacket) → Preserves IsOf (send_packet k e clock p)
    unfolding send_packet
    send_packet-Preserves clock p = search (preserves_rules, write_packet-Preserves) depth 9

    finalize-Preserves : (clock : Clock) → Preserves IsOf (finalize k e clock)
    unfolding finalize
    finalize-Preserves clock = record { at = λ s. (finish s.addons).at s }
      where
        finish :
            (addons : List Addon)
            → Preserves IsOf (do
              _ ← send_packet k e clock auth_response
              _ ← send_packet k e clock (addon_info addons)
              _ ← send_packet k e clock (client_cache_version 0)
              send_packet k e clock tutorial_data)
        finish addons = search (preserves_rules, send_packet-Preserves) depth 12

  finalized-owner :
      (o : ℕ × Client) (r : Outcome SessionError (Unit {0})) (s t : Session k)
      → finalized k e (r, s) ≡ ok t
      → owner s ≡ o
      → owner t ≡ o
  unfolding finalized
  finalized-owner o (ok _) s t h own = let same : s ≡ t = cc in subst (λ s. owner s ≡ o) same own
  finalized-owner o (err _) s t h own = cc
  finalized-owner o panic s t h own = cc

  pub new_session-owner :
      (clock : Clock) (client : Client) (writer : Writer) (key : List ℕ) (addons : List Addon)
      (t : Session k)
      → new_session k e clock client writer key addons ≡ ok t
      → owner t ≡ (client.id, client)
  unfolding new_session fresh_session
  new_session-owner clock client writer key addons t h =
      let fresh = fresh_session k e clock client writer key addons in
      finalized-owner (client.id, client) (finalize k e clock fresh).0 (finalize k e clock fresh).1
        t h ((finalize-Preserves (client.id, client) clock).at fresh refl)
