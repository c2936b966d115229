-- ===== src/WorldServer/Clients/Joined.antt =====
-- The session of a connection: where it comes from, and that it stays.
use azerust.Prelude.{
  ℕ, ◌≡◌, refl, ap, sym, ◌∙◌, some, none, List, [], ◌∷◌, ◌++◌, ◌==◌, Bool-cases, inl, inr, All,
  arith,
}
use mathlib.Core.Path.{subst}
use azerust.Prelude.Maps.{find, insert, find-insert, find-insert_same, find-insert_other}
use azerust.Prelude.Outcome.{Outcome, ok, err, panic}
use azerust.Prelude.Exec.{bind_ok, match_result, pure, lift}
use azerust.Bincode.{Bincode}
use azerust.Protocol.HeaderCrypto.{Ciphers}
use azerust.Protocol.Packets.{ClientPacket, AuthSession, auth_session}
use azerust.Protocol.World.{ResponseCode}
use azerust.Crypto.{Crypto}
use azerust.Game.Accounts.{AccountService}
use azerust.Game.Characters.{CharacterService}
use azerust.WorldServer.Decode.{Zlib}
use azerust.WorldServer.Socket.{Writer}
use azerust.WorldServer.Session.{Client, Clock, Session}
use azerust.WorldServer.Session.Owner.{new_session-owner}
use azerust.WorldServer.World.{World}
use azerust.WorldServer.Login.{Server, handle_auth_session}
use azerust.WorldServer.Login.Sound.{handle_auth_session_sound}
use azerust.WorldServer.Clients.{
  Visit, ConnectError, refused, refuse, first_packets, get_client, log_in, connect,
}
use azerust.WorldServer.Clients.Kept.{connect-Kept}

module _ (k : Ciphers) where
  -- A session stands under a number.
  abbrev pub IsHere : ℕ → List (ℕ × Session k) → Type 0
  IsHere j m = (s : Session k) × (find j m ≡ some s)

  pub insert-IsHere :
      (j i : ℕ) (t : Session k) (m : List (ℕ × Session k)) → IsHere j m → IsHere j (insert i t m)
  insert-IsHere j i t m (s, here) = elim (Bool-cases (i == j)) [
    | inl same ↦ (t, find-insert j i t m ∙ rw same refl)
    | inr other ↦ (s, find-insert_other j i t m other ∙ here)
  ]

  -- Every packet of a queue has a session.
  abbrev pub IsServed : List (ℕ × ClientPacket) → List (ℕ × Session k) → Type 0
  IsServed queue m = All (λ q. IsHere q.0 m) queue

  abbrev pub Served : {C : Type 0} → World k C → Type 0
  Served w = IsServed w.receiver w.sessions

  pub IsServed-mono :
      (queue : List (ℕ × ClientPacket)) (m m' : List (ℕ × Session k))
      → ((j : ℕ) → IsHere j m → IsHere j m')
      → IsServed queue m
      → IsServed queue m'
  IsServed-mono [] m m' grow h = tt
  IsServed-mono ((id, p) ∷ queue) m m' grow (here, h) =
      (grow id here, IsServed-mono queue m m' grow h)

  pub IsServed-append :
      (queue : List (ℕ × ClientPacket)) (id : ℕ) (p : ClientPacket) (m : List (ℕ × Session k))
      → IsServed queue m
      → IsHere id m
      → IsServed (queue ++ (id, p) ∷ []) m
  IsServed-append [] id p m h here = (here, tt)
  IsServed-append ((j, q) ∷ queue) id p m (first, h) here =
      (first, IsServed-append queue id p m h here)

module _ (c : Crypto) (k : Ciphers) (e : Bincode) (z : Zlib) {A C : Type 0}
    (service : AccountService A) (characters : CharacterService C) (realm_id : ℕ)
    (realm_seed : List ℕ) (clock : Clock) where
  pub connect-Served :
      (id : ℕ) (writer : Writer) (x : Visit k A C)
      → Served k x.server.world
      → Served k
          (connect c k e z service characters realm_id realm_seed clock id writer x).1.server.world
  connect-Served id writer =
      (connect-Kept c k e z service characters realm_id realm_seed clock (Served k)
        (λ session w client id own h.
          IsServed-mono k w.receiver w.sessions _
            (λ j. insert-IsHere k j session.client_id session w.sessions) h)
        id writer).at

  refuse_fails :
      (p : ResponseCode × Writer) (packets : List ClientPacket) → refuse e p ≡ ok packets → ⊥
  unfolding refuse refused
  refuse_fails (code, writer) packets h = ground arith

  joined-IsHere :
      (client : Client) (writer : Writer) (auth : AuthSession) (s s' : Server k A C)
      → handle_auth_session c k e service characters realm_id realm_seed clock client writer auth s
        ≡ (ok tt, s')
      → IsHere k client.id s'.world.sessions
  joined-IsHere client writer auth s s' h =
      let joined =
        handle_auth_session_sound c k e service characters realm_id realm_seed clock client writer
          auth s s' h in
      let session = joined.session in
      let own : session.client_id ≡ client.id =
        ap (λ (o : ℕ × Client). o.0)
          (new_session-owner k e clock (record client { account = some joined.account.id }) writer
            joined.session_key auth.addons session joined.created) in
      subst (λ w. IsHere k client.id w.world.sessions) (sym joined.joined)
        (subst (λ j. IsHere k j (insert session.client_id session s.world.sessions)) own
          (session, find-insert_same session.client_id session s.world.sessions))

  answered-IsHere :
      (client : Client) (writer : Writer) (auth : AuthSession) (packets rest : List ClientPacket)
      (x : Visit k A C) (r : Outcome (ResponseCode × Writer) (Unit {0})) (s' : Server k A C)
      → handle_auth_session c k e service characters realm_id realm_seed clock client writer auth
          x.server
        ≡ (r, s')
      → (match_result
          (lift r)
          (λ _. pure packets)
          (λ p. lift (refuse e p))
          (record x { server = s' })).0
        ≡ ok rest
      → IsHere k client.id
          (match_result
            (lift r)
            (λ _. pure packets)
            (λ p. lift (refuse e p))
            (record x { server = s' })).1.server.world.sessions
  answered-IsHere client writer auth packets rest x (ok _) s' is h =
      joined-IsHere client writer auth x.server s' is
  answered-IsHere client writer auth packets rest x (err p) s' is h = absurd (refuse_fails p rest h)
  answered-IsHere client writer auth packets rest x panic s' is h = cc

  log_in-IsHere :
      (id : ℕ) (writer : Writer) (packets rest : List ClientPacket) (x x' : Visit k A C)
      (client : Client)
      → find id x.server.clients ≡ some client
      → log_in c k e z service characters realm_id realm_seed clock id writer packets x
        ≡ (ok rest, x')
      → IsHere k client.id x'.server.world.sessions
  unfolding log_in get_client
  log_in-IsHere id writer [] rest x x' client found h = cc
  log_in-IsHere id writer (auth_session auth ∷ packets) rest x x' client found h =
      let h' = rw found at h in
      subst (λ (y : Visit k A C). IsHere k client.id y.server.world.sessions)
        (ap (λ (p : Outcome ConnectError (List ClientPacket) × Visit k A C). p.1) h')
        (answered-IsHere client writer auth packets rest x _ _ refl
          (ap (λ (p : Outcome ConnectError (List ClientPacket) × Visit k A C). p.0) h'))
  log_in-IsHere id writer (p ∷ packets) rest x x' client found h = cc

  -- A connection that goes on to its loop has its session.
  pub connect-IsHere :
      (id : ℕ) (writer : Writer) (rest : List ClientPacket) (x x' : Visit k A C)
      → find id x.server.clients ≡ some (record { id = id; account = none })
      → connect c k e z service characters realm_id realm_seed clock id writer x ≡ (ok rest, x')
      → IsHere k id x'.server.world.sessions
  unfolding connect first_packets
  connect-IsHere id writer rest x x' found h =
      let (packets, got, h') =
        bind_ok (first_packets c k e z service characters realm_id realm_seed clock)
          (log_in c k e z service characters realm_id realm_seed clock id writer) x rest x' h in
      log_in-IsHere id writer packets rest
        (first_packets c k e z service characters realm_id realm_seed clock x).1 x'
        (record { id = id; account = none }) found h'
