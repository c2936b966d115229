-- ===== src/WorldServer/Clients/Served.antt =====
-- The rounds of a connection keep the sessions that the queue needs.
use azerust.Prelude.{ℕ, ◌≡◌, refl, sym, Option, some, none, List, [], ◌∷◌}
use mathlib.Core.Path.{subst}
use azerust.Prelude.Maps.{find, insert, find-insert_same}
use azerust.Bincode.{Bincode}
use azerust.Protocol.HeaderCrypto.{Ciphers, HeaderCrypto}
use azerust.Protocol.Packets.{ClientPacket}
use azerust.Crypto.{Crypto}
use azerust.Game.Accounts.{AccountService}
use azerust.Game.Characters.{CharacterService}
use azerust.WorldServer.Decode.{Zlib}
use azerust.WorldServer.Session.{Clock, Session, reset_timeout, receive_packet}
use azerust.WorldServer.World.{World}
use azerust.WorldServer.Clients.{Visit, give_to, give_all, put_back, read_for, round}
use azerust.WorldServer.Clients.Preserved.{IsLoggedIn, give_to-IsLoggedIn}
use azerust.WorldServer.Clients.Joined.{
  IsHere, IsServed-mono, IsServed-append, insert-IsHere, Served,
}

module _ (c : Crypto) (k : Ciphers) (e : Bincode) (z : Zlib) {A C : Type 0}
    (service : AccountService A) (characters : CharacterService C) (realm_id : ℕ)
    (realm_seed : List ℕ) (clock : Clock) where
  -- What a session is given goes into the queue under its number.
  give_to-Served :
      (id : ℕ) (p : ClientPacket) (found : Option (Session k)) (w : World k C)
      → find id w.sessions ≡ found
      → IsLoggedIn k e w.sessions
      → Served k w
      → Served k (give_to c k e z service characters realm_id realm_seed clock id p found w)
  unfolding give_to reset_timeout receive_packet IsLoggedIn
  give_to-Served id p none w there logged h = h
  give_to-Served id p (some s) w there logged h =
      let (_, s') = reset_timeout k clock s in
      let m = insert id s' w.sessions in
      IsServed-append k w.receiver s.client_id p m
        (IsServed-mono k w.receiver w.sessions m (λ j. insert-IsHere k j id s' w.sessions) h)
        (subst (λ j. IsHere k j m) (sym (logged id s there).0)
          (s', find-insert_same id s' w.sessions))

  give_all-Served :
      (id : ℕ) (packets : List ClientPacket) (w : World k C)
      → IsLoggedIn k e w.sessions
      → Served k w
      → Served k (give_all c k e z service characters realm_id realm_seed clock id packets w)
  unfolding give_all
  give_all-Served id [] w logged h = h
  give_all-Served id (p ∷ packets) w logged h =
      let found = find id w.sessions in
      give_all-Served id packets _
        (give_to-IsLoggedIn c k e z service characters realm_id realm_seed clock id p found w refl
          logged)
        (give_to-Served id p found w refl logged h)

  give_all-IsHere :
      (j id : ℕ) (packets : List ClientPacket) (w : World k C)
      → IsHere k j w.sessions
      → IsHere k j
          (give_all c k e z service characters realm_id realm_seed clock id packets w).sessions
  unfolding give_all
  give_all-IsHere j id [] w h = h
  give_all-IsHere j id (p ∷ packets) w h =
      give_all-IsHere j id packets _ (give_to-IsHere (find id w.sessions))
    where
      give_to-IsHere :
          (found : Option (Session k))
          → IsHere k j
              (give_to c k e z service characters realm_id realm_seed clock id p found w).sessions
      give_to-IsHere none = h
      give_to-IsHere (some s) = insert-IsHere k j id (reset_timeout k clock s).1 w.sessions h

  put_back-Served :
      (id : ℕ) (s : Session k) (used : Option (HeaderCrypto k)) (w : World k C)
      → Served k w
      → IsHere k id w.sessions
      → let w' = put_back c k e z service characters realm_id realm_seed clock id s used w in
        Served k w' × IsHere k id w'.sessions
  unfolding put_back
  put_back-Served id s none w h here = (h, here)
  put_back-Served id s (some used) w h here =
      let s' = record s { encryption = used } in
      (
        IsServed-mono k w.receiver w.sessions (insert id s' w.sessions)
            (λ j. insert-IsHere k j id s' w.sessions) h,
        insert-IsHere k id id s' w.sessions here,
      )

  read_for-Served :
      (id : ℕ) (found : Option (Session k)) (x : Visit k A C)
      → Served k x.server.world
      → IsHere k id x.server.world.sessions
      → let x' = (read_for c k e z service characters realm_id realm_seed clock id found x).1 in
        Served k x'.server.world × IsHere k id x'.server.world.sessions
  unfolding read_for
  read_for-Served id none x h here = (h, here)
  read_for-Served id (some s) x h here = put_back-Served id s _ x.server.world h here

  -- A round keeps the session of its connection, and the queue served.
  pub round-Served :
      (id : ℕ) (packets : List ClientPacket) (x : Visit k A C)
      → IsLoggedIn k e x.server.world.sessions
      → Served k x.server.world
      → IsHere k id x.server.world.sessions
      → let x' = (round c k e z service characters realm_id realm_seed clock id packets x).1 in
        Served k x'.server.world × IsHere k id x'.server.world.sessions
  unfolding round
  round-Served id packets x logged h here =
      read_for-Served id _ _ (give_all-Served id packets x.server.world logged h)
        (give_all-IsHere id id packets x.server.world here)
