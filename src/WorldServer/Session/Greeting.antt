-- ===== src/WorldServer/Session/Greeting.antt =====
-- What a new session sends, before it is in the world.
use azerust.Prelude.{
  ℕ, map, ◌+◌, ◌*◌, ◌^◌, ◌<◌, ◌≡◌, refl, sym, ap, ◌∙◌, some, List, [], ◌∷◌, ◌++◌, length, All,
  length-append, length-le_bytes, arith,
}
use azerust.Prelude.Outcome.{Outcome, ok, err, panic}
use azerust.Prelude.Exec.{bind_same, bind_unit}
use azerust.Bincode.{Bincode}
use azerust.Protocol.World.{
  opcode_code, response_code, auth_ok, smsg_auth_response, smsg_addon_info,
  smsg_clientcache_version, smsg_tutorial_flags,
}
use azerust.Protocol.HeaderCrypto.{Ciphers, new_crypto, synced, encrypt_key}
use azerust.Protocol.Packets.{
  Addon, auth_response, addon_info, client_cache_version, tutorial_data, client_version_code, wotlk,
}
use azerust.WorldServer.Socket.{Writer}
use azerust.WorldServer.ServerPackets.{SessionError, packet_of, flat_map, addon_bytes, ints}
use azerust.WorldServer.Session.{
  Client, Clock, Session, send_packet, finalize, finalized, fresh_session, new_session,
}
use azerust.WorldServer.Session.Delivery.{Frame, send_all, client_read, IsFrame, send_all-delivers}

length-flat_map : (addons : List Addon) → length (flat_map addon_bytes addons) ≡ length addons * 8
unfolding flat_map addon_bytes
length-flat_map [] = refl
length-flat_map (a ∷ addons) = omega (arith, length-flat_map addons)

module _ (k : Ciphers) (e : Bincode) (clock : Clock) where
  -- the packets of a greeting, with their bodies
  abbrev pub greeting : List Addon → List Frame
  greeting addons =
      record {
        packet = auth_response;
        code = smsg_auth_response;
        body =
            e.put_int 4 (response_code auth_ok)
            ++ (e.put_int 4 0 ++ ints e 1 (0 ∷ 0 ∷ client_version_code wotlk ∷ []));
      }
      ∷ record {
        packet = addon_info addons;
        code = smsg_addon_info;
        body = flat_map addon_bytes addons ++ 0 ∷ [];
      }
      ∷ record {
        packet = client_cache_version 0;
        code = smsg_clientcache_version;
        body = e.put_int 4 0;
      }
      ∷ record {
        packet = tutorial_data;
        code = smsg_tutorial_flags;
        body = ints e 4 (0 ∷ 0 ∷ 0 ∷ 0 ∷ 0 ∷ 0 ∷ 0 ∷ 0 ∷ []);
      }
      ∷ []

  length-put : (w n : ℕ) → length (e.put_int w n) ≡ w
  length-put w n = ap length (e.put_int_lem w n) ∙ length-le_bytes w n

  length-ints : (ns : List ℕ) → length (ints e 4 ns) ≡ length ns * 4
  unfolding ints flat_map
  length-ints [] = refl
  length-ints (n ∷ ns) =
      omega (arith, length-append (e.put_int 4 n) (ints e 4 ns), length-put 4 n, length-ints ns)

  greeting-All :
      (addons : List Addon)
      → length addons * 8 + 3 < 2 ^ 16
      → All (IsFrame k e clock) (greeting addons)
  unfolding packet_of
  greeting-All addons few = (
    (
      refl,
      rw (e.put_int_lem 4 12, e.put_int_lem 4 0, e.put_int_lem 1 0, e.put_int_lem 1 2)
          (omega arith),
    ),
    (
      (
        refl,
        omega (arith, length-append (flat_map addon_bytes addons) (0 ∷ []), length-flat_map addons),
      ),
      (
        (refl, omega (arith, length-put 4 0)),
        ((refl, omega (arith, length-ints (0 ∷ 0 ∷ 0 ∷ 0 ∷ 0 ∷ 0 ∷ 0 ∷ 0 ∷ []))), tt),
      ),
    ),
  )

  finalize-send_all :
      (s : Session k)
      → finalize k e clock s
        ≡ send_all k e clock
            (auth_response ∷ addon_info s.addons ∷ client_cache_version 0 ∷ tutorial_data ∷ [])
            s
  unfolding finalize
  finalize-send_all s = bind_same (send_packet k e clock auth_response) _ _ s λ _ s1 _.
      bind_same (send_packet k e clock (addon_info s.addons)) _ _ s1 λ _ s2 _.
        bind_same (send_packet k e clock (client_cache_version 0)) _ _ s2
          λ _ s3 _. sym (bind_unit (send_packet k e clock tutorial_data) s3)

  -- while every write takes all its bytes
  pub finalize-greets :
      (s : Session k)
      → s.stream.limits ≡ []
      → length s.addons * 8 + 3 < 2 ^ 16
      → ((finalize k e clock s).0 ≡ ok tt)
        × (bytes : List ℕ) × ((finalize k e clock s).1.stream.output ≡ s.stream.output ++ bytes)
        × (client_read k 4 s.encryption.encrypting bytes
            ≡ some (map (λ f. (opcode_code f.code, f.body)) (greeting s.addons)))
  finalize-greets s whole few =
      let (fine, bytes, added, got) =
        send_all-delivers k e clock (greeting s.addons) s (greeting-All s.addons few) whole in
      (
        ap (λ r. r.0) (finalize-send_all s) ∙ fine,
        bytes,
        ap (λ r. r.1.stream.output) (finalize-send_all s) ∙ added,
        got,
      )

  finalized_fine :
      (r : Outcome SessionError (Unit {0})) (s : Session k)
      → r ≡ ok tt
      → finalized k e (r, s) ≡ ok s
  unfolding finalized
  finalized_fine (ok _) s h = refl
  finalized_fine (err _) s h = cc
  finalized_fine panic s h = cc

  pub new_session-greets :
      (client : Client) (writer : Writer) (key : List ℕ) (addons : List Addon)
      → writer.limits ≡ []
      → length addons * 8 + 3 < 2 ^ 16
      → (session : Session k) × (new_session k e clock client writer key addons ≡ ok session)
        × (bytes : List ℕ) × (session.stream.output ≡ writer.output ++ bytes)
        × (client_read k 4 (synced k encrypt_key key) bytes
            ≡ some (map (λ f. (opcode_code f.code, f.body)) (greeting addons)))
  unfolding new_session fresh_session new_crypto
  new_session-greets client writer key addons whole few =
      let fresh = fresh_session k e clock client writer key addons in
      let (fine, bytes, added, got) = finalize-greets fresh whole few in
      (
        (finalize k e clock fresh).1,
        finalized_fine (finalize k e clock fresh).0 (finalize k e clock fresh).1 fine,
        bytes,
        added,
        got,
      )
