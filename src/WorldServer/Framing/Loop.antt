-- ===== src/WorldServer/Framing/Loop.antt =====
-- The loop of `read_packets` ends: each round takes a header at least off the buffer.
use azerust.Prelude.{
  ℕ, zero, suc, ◌+◌, ◌≤◌, ◌<◌, ◌≡◌, refl, Option, List, [], ◌∷◌, length, length-drop, arith,
}
use azerust.Prelude.Outcome.{ok}
use azerust.Prelude.Exec.{bind_same, pure, ◌>>=◌}
use azerust.Prelude.Returns.{Returns, Returns-pure, Returns-bind, Returns-lift}
use azerust.Bincode.{Bincode}
use azerust.Protocol.HeaderCrypto.{Ciphers, HeaderCrypto}
use azerust.WorldServer.Decode.{Zlib, slice_from}
use azerust.WorldServer.Framing.{next_packet, packets_of}

behind_shorter :
    (packet bytes rest : List ℕ)
    → slice_from (6 + length packet) bytes ≡ ok rest
    → length rest < length bytes
unfolding slice_from
behind_shorter packet bytes rest h = ground (arith, length-drop (6 + length packet) bytes)

module _ (k : Ciphers) (e : Bincode) (z : Zlib) where
  next_packet-Returns :
      (buffer : List ℕ) → Returns (λ p. length p.1 < length buffer) (next_packet k e z buffer)
  unfolding next_packet
  next_packet-Returns buffer =
      search (Returns-lift, Returns-bind, Returns-pure, behind_shorter) depth 20

  packets_of_enough :
      (fuel more : ℕ) (buffer : List ℕ) (s : Option (HeaderCrypto k))
      → length buffer ≤ fuel
      → length buffer ≤ more
      → packets_of k e z fuel buffer s ≡ packets_of k e z more buffer s
  unfolding packets_of
  packets_of_enough fuel more [] s h h' = refl
  packets_of_enough zero more (b ∷ buffer) s h h' = absurd (omega arith)
  packets_of_enough (suc fuel) zero (b ∷ buffer) s h h' = absurd (omega arith)
  packets_of_enough (suc fuel) (suc more) (b ∷ buffer) s h h' =
      bind_same (next_packet k e z (b ∷ buffer)) _ _ s λ p t got.
        let less = (next_packet-Returns (b ∷ buffer)).of s p got in
        rw (packets_of_enough fuel more p.1 t (omega (arith, less)) (omega (arith, less))) refl

  -- With one round for each byte of its buffer, the loop of `read_packets` reads the packet at the
  -- front and goes on with what is behind it, again with one round for each byte of that: the bound
  -- never cuts it short.
  pub packets_of_loop :
      (b : ℕ) (buffer : List ℕ) (s : Option (HeaderCrypto k))
      → packets_of k e z (length (b ∷ buffer)) (b ∷ buffer) s
        ≡ (next_packet k e z (b ∷ buffer) >>= λ p.
              packets_of k e z (length p.1) p.1 >>= λ packets. pure (p.0 ∷ packets))
            s
  unfolding packets_of
  packets_of_loop b buffer s = bind_same (next_packet k e z (b ∷ buffer)) _ _ s λ p t got.
      let less = (next_packet-Returns (b ∷ buffer)).of s p got in
      rw (packets_of_enough (length buffer) (length p.1) p.1 t (omega (arith, less)) (omega arith))
        refl
