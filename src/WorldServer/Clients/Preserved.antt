-- ===== src/WorldServer/Clients/Preserved.antt =====
-- The sessions keep their owners in all that the task of the clients does.
use azerust.Prelude.{
  ℕ, ◌≡◌, refl, ap, sym, ◌∙◌, Option, some, none, List, [], ◌∷◌, ◌==◌, ==_iff, Bool-cases, inl, inr,
}
use mathlib.Core.Option
use mathlib.Core.Path.{subst}
use azerust.Prelude.Maps.{find, insert, find-insert_same, find-insert_other, map-insert_same}
use azerust.Prelude.Preserves.{Preserves}
use azerust.Bincode.{Bincode}
use azerust.Protocol.HeaderCrypto.{Ciphers, HeaderCrypto}
use azerust.Protocol.Packets.{ClientPacket}
use azerust.Crypto.{Crypto}
use azerust.Game.Accounts.{AccountService}
use azerust.Game.Characters.{CharacterService}
use azerust.WorldServer.Decode.{Zlib}
use azerust.WorldServer.Socket.{Writer}
use azerust.WorldServer.Session.{Client, Clock, Session, reset_timeout}
use azerust.WorldServer.World.{World}
use azerust.WorldServer.Login.{Server}
use azerust.WorldServer.Clients.{Visit, connect, give_to, give_all, put_back, read_for, round}
use azerust.WorldServer.Clients.Kept.{connect-Kept}
use azerust.WorldServer.Session.Owner.{owner}

module _ (k : Ciphers) (e : Bincode) where
  -- the owner of the session under a number has that number, and an account
  abbrev pub IsOwner : ℕ → ℕ × Client → Type 0
  IsOwner j o = (o.0 ≡ j) × (o.1.id ≡ j) × (a : ℕ) × (o.1.account ≡ some a)

  unfoldable pub IsLoggedIn : List (ℕ × Session k) → Type 0
  IsLoggedIn m = (j : ℕ) (s : Session k) → find j m ≡ some s → IsOwner j (owner k e s)

  pub insert-IsLoggedIn :
      (i : ℕ) (s : Session k) (m : List (ℕ × Session k))
      → IsOwner i (owner k e s)
      → IsLoggedIn m
      → IsLoggedIn (insert i s m)
  unfolding IsLoggedIn
  insert-IsLoggedIn i s m own h j t there = elim (Bool-cases (i == j)) [
    | inl same ↦
        let here : some s ≡ find j (insert i s m) =
          sym (find-insert_same i s m) ∙ ap (λ n. find n (insert i s m)) ((==_iff i j).0 same) in
        let eq : some s ≡ some t = here ∙ there in
        let st : s ≡ t = cc in
        subst (λ r. IsOwner j (owner k e r)) st
          (subst (λ n. IsOwner n (owner k e s)) ((==_iff i j).0 same) own)
    | inr other ↦ h j t (sym (find-insert_other j i s m other) ∙ there)
  ]

  -- sessions with the same owners
  pub same-IsLoggedIn :
      (m m' : List (ℕ × Session k))
      → ((j : ℕ) → Option.map (owner k e) (find j m') ≡ Option.map (owner k e) (find j m))
      → IsLoggedIn m
      → IsLoggedIn m'
  unfolding IsLoggedIn
  same-IsLoggedIn m m' same h j t there =
      let (s, found, eq) =
        (Option.map-eq-some_iff (owner k e) (find j m)).0
          (sym (same j) ∙ ap (Option.map (owner k e)) there) in
      subst (IsOwner j) eq (h j s found)

  -- a session in place of one with the same owner
  renew-IsLoggedIn :
      (i : ℕ) (s t : Session k) (m : List (ℕ × Session k))
      → find i m ≡ some s
      → owner k e t ≡ owner k e s
      → IsLoggedIn m
      → IsLoggedIn (insert i t m)
  renew-IsLoggedIn i s t m there same =
      same-IsLoggedIn m (insert i t m) (λ j. map-insert_same (owner k e) j i s t m there same)

module _ (c : Crypto) (k : Ciphers) (e : Bincode) (z : Zlib) {A C : Type 0}
    (service : AccountService A) (characters : CharacterService C) (realm_id : ℕ)
    (realm_seed : List ℕ) (clock : Clock) where
  abbrev pub IsSound : Server k A C → Type 0
  IsSound s = IsLoggedIn k e s.world.sessions

  abbrev IsFine : Visit k A C → Type 0
  IsFine x = IsSound x.server

  pub connect-Preserves :
      (id : ℕ) (writer : Writer)
      → Preserves IsFine (connect c k e z service characters realm_id realm_seed clock id writer)
  connect-Preserves id writer =
      connect-Kept c k e z service characters realm_id realm_seed clock
        (λ w. IsLoggedIn k e w.sessions)
        (λ session w client id own p.
          insert-IsLoggedIn k e session.client_id session w.sessions
            (subst (λ o. IsOwner k e o.0 o) (sym own) (refl, refl, id, refl)) p)
        id writer

  pub give_to-IsLoggedIn :
      (id : ℕ) (p : ClientPacket) (found : Option (Session k)) (w : World k C)
      → find id w.sessions ≡ found
      → IsLoggedIn k e w.sessions
      → IsLoggedIn k e
          (give_to c k e z service characters realm_id realm_seed clock id p found w).sessions
  unfolding give_to reset_timeout
  give_to-IsLoggedIn id p none w there h = h
  give_to-IsLoggedIn id p (some s) w there h = renew-IsLoggedIn k e id s _ w.sessions there refl h

  give_all-IsLoggedIn :
      (id : ℕ) (packets : List ClientPacket) (w : World k C)
      → IsLoggedIn k e w.sessions
      → IsLoggedIn k e
          (give_all c k e z service characters realm_id realm_seed clock id packets w).sessions
  unfolding give_all
  give_all-IsLoggedIn id [] w h = h
  give_all-IsLoggedIn id (p ∷ packets) w h =
      give_all-IsLoggedIn id packets _ (give_to-IsLoggedIn id p (find id w.sessions) w refl h)

  put_back-IsLoggedIn :
      (id : ℕ) (s : Session k) (h : Option (HeaderCrypto k)) (w : World k C)
      → find id w.sessions ≡ some s
      → IsLoggedIn k e w.sessions
      → IsLoggedIn k e
          (put_back c k e z service characters realm_id realm_seed clock id s h w).sessions
  unfolding put_back
  put_back-IsLoggedIn id s none w there sound = sound
  put_back-IsLoggedIn id s (some h) w there sound =
      renew-IsLoggedIn k e id s _ w.sessions there refl sound

  read_for-IsFine :
      (id : ℕ) (found : Option (Session k)) (x : Visit k A C)
      → find id x.server.world.sessions ≡ found
      → IsFine x
      → IsFine (read_for c k e z service characters realm_id realm_seed clock id found x).1
  unfolding read_for
  read_for-IsFine id none x there h = h
  read_for-IsFine id (some s) x there h = put_back-IsLoggedIn id s _ x.server.world there h

  pub round-Preserves :
      (id : ℕ) (packets : List ClientPacket)
      → Preserves IsFine (round c k e z service characters realm_id realm_seed clock id packets)
  unfolding round
  round-Preserves id packets = record {
    at = λ x p. read_for-IsFine id _ _ refl (give_all-IsLoggedIn id packets x.server.world p);
  }
