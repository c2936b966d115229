-- ===== src/AuthServer/RealmListSize.antt =====
-- The size field of the realm list packet.
use azerust.Prelude.{
  ℕ, ◌+◌, ◌-◌, ◌%◌, ◌^◌, ◌<◌, ◌≡◌, refl, ap, ◌∙◌, List, [], ◌∷◌, ◌++◌, length, length-append, arith,
}
use azerust.Bincode.{Bincode}
use azerust.Protocol.Auth.{auth_command_code}
use azerust.AuthServer.Packets.{
  Realm, put_array, put_realm, put_realm_list_response, realms_size, response_from_realms,
}
use azerust.AuthServer.Handlers.{put_realms, realm_list_packet}
use azerust.AuthServer.Connection.Arrival.{length-put_int, length-put_array}
use mathlib.Core.List.{append_assoc}

module _ (e : Bincode) where
  length-put_realms : (rs : List Realm) → length (put_realms e rs) ≡ realms_size e rs
  unfolding put_realms realms_size
  length-put_realms [] = refl
  length-put_realms (r ∷ rest) =
      length-append (put_realm e r) (put_realms e rest)
      ∙ ap (λ n. length (put_realm e r) + n) (length-put_realms rest)

  -- The realm list packet is the number of its command, a size of two bytes and a body of that size,
  -- for realms that take less than 2 ^ 16 - 8 bytes together.
  pub realm_list_packet_size :
      (rs : List Realm)
      → realms_size e rs < 2 ^ 16 - 8
      → (body : List ℕ) × (realm_list_packet e rs ≡ 0x10 ∷ e.put_int 2 (length body) ++ body)
  unfolding realm_list_packet put_realm_list_response response_from_realms auth_command_code
  realm_list_packet_size rs h =
      let count = e.put_int 2 (length rs % 2 ^ 16) in
      let zeros = put_array e (0 ∷ 0 ∷ 0 ∷ 0 ∷ []) in
      let tail = put_realms e rs ++ (0x10 ∷ 0 ∷ []) in
      let body = zeros ++ (count ++ tail) in
      let size : length body ≡ (4 + 2 + realms_size e rs % 2 ^ 16 + 2) % 2 ^ 16 = omega (
        arith,
        length-append zeros (count ++ tail),
        length-append count tail,
        length-append (put_realms e rs) (0x10 ∷ 0 ∷ []),
        length-put_realms rs,
        length-put_array e (0 ∷ 0 ∷ 0 ∷ 0 ∷ []),
        length-put_int e 2 (length rs % 2 ^ 16),
      ) in
      (
        body,
        rw (size, e.put_int_lem 1 0x10, append_assoc, append_assoc)
            (ap (λ t. 0x10 ∷ e.put_int 2 ((4 + 2 + realms_size e rs % 2 ^ 16 + 2) % 2 ^ 16) ++ t)
              (append_assoc zeros count tail)),
      )
