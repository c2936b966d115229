-- ===== src/AuthServer/Message/Reading.antt =====
-- `read_packet`: what it does with the segments in which a message arrives.
use azerust.Prelude.{
  ℕ, ◌≡◌, ◌≤◌, ◌<◌, ap, ◌∙◌, some, List, [], ◌∷◌, length, take, drop, length-take, ◌==◌, ==-refl,
  if◌then◌else◌, arith, false,
}
use azerust.Prelude.Outcome.{err}
use azerust.Bincode.{Bincode}
use azerust.Protocol.Auth.{
  AuthCommand, connect, proof, re_connect, re_proof, realm_list, auth_command_from,
}
use azerust.AuthServer.Stream.{Stream, read_exact, read}
use azerust.AuthServer.Message.{message_length, command_len, decode_message, read_packet, read_body}

lt→==false : (a b : ℕ) → a < b → (a == b) ≡ false
lt→==false a b h = ground arith

command_len_pos : (command : AuthCommand) → 0 < command_len command
unfolding command_len
command_len_pos connect = omega arith
command_len_pos proof = omega arith
command_len_pos re_connect = omega arith
command_len_pos re_proof = omega arith
command_len_pos realm_list = omega arith

module _ (e : Bincode) where
  read_packet_lem :
      (s : Stream) (code b : ℕ) (bs : List ℕ) (rest : List (List ℕ)) (command : AuthCommand)
      → s.input ≡ (code ∷ b ∷ bs) ∷ rest
      → auth_command_from code ≡ some command
      → read_packet e s ≡ (
        (if length (take (command_len command) (b ∷ bs)) == command_len command
            then decode_message e command (take (command_len command) (b ∷ bs))
            else err (
                message_length
                  (length (take (command_len command) (b ∷ bs)))
                  (command_len command))),
        record s { input = drop (command_len command) (b ∷ bs) ∷ rest },
      )
  unfolding read_packet read_body read_exact read
  read_packet_lem s code b bs rest command h known = ground arith

  -- A message whose command and body stand in one segment is decoded from exactly its bytes, and
  -- what follows them stays on the stream.
  pub read_packet_whole :
      (s : Stream) (code : ℕ) (body : List ℕ) (rest : List (List ℕ)) (command : AuthCommand)
      → s.input ≡ (code ∷ body) ∷ rest
      → auth_command_from code ≡ some command
      → command_len command ≤ length body
      → read_packet e s ≡ (
        decode_message e command (take (command_len command) body),
        record s { input = drop (command_len command) body ∷ rest },
      )
  read_packet_whole s code [] rest command h known fits =
      absurd (omega (arith, command_len_pos command))
  read_packet_whole s code (b ∷ bs) rest command h known fits =
      let full : length (take (command_len command) (b ∷ bs)) ≡ command_len command =
        omega (arith, length-take (command_len command) (b ∷ bs)) in
      read_packet_lem s code b bs rest command h known ∙ rw (full, ==-refl)

  -- A message is refused where its command and a part of its body, one byte of it at least, stand in
  -- one segment, although the bytes of the next segments may complete it.
  pub read_packet_split :
      (s : Stream) (code b : ℕ) (bs : List ℕ) (rest : List (List ℕ)) (command : AuthCommand)
      → s.input ≡ (code ∷ b ∷ bs) ∷ rest
      → auth_command_from code ≡ some command
      → length (b ∷ bs) < command_len command
      → (read_packet e s).0 ≡ err (message_length (length (b ∷ bs)) (command_len command))
  read_packet_split s code b bs rest command h known short =
      let part : length (take (command_len command) (b ∷ bs)) ≡ length (b ∷ bs) =
        omega (arith, length-take (command_len command) (b ∷ bs)) in
      ap (λ p. p.0) (read_packet_lem s code b bs rest command h known)
      ∙ rw (part, lt→==false (length (b ∷ bs)) (command_len command) short)
