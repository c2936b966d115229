-- ===== src/AuthServer/Connection/Arrival.antt =====
-- A connect request from its bytes on the wire to the end of its connection.
use azerust.Prelude.{
  ℕ, suc, ◌≡◌, ◌≢◌, ◌<◌, refl, ap, sym, ◌∙◌, Bool, if◌then◌else◌, some, List, [], ◌∷◌, ◌++◌, length,
  arith, take-append, drop-append, length-append, ◌==◌, true, false, ltb, length-le_bytes,
}
use azerust.Prelude.Outcome.{ok, panic}
use azerust.Bincode.{Bincode}
use azerust.Crypto.{Crypto}
use azerust.Game.Accounts.{AccountService}
use azerust.Game.Realms.{RealmList}
use azerust.Protocol.Auth.{
  AuthCommand, connect, re_connect, ReturnCode, auth_command_from_code, auth_command_code,
  return_code,
}
use azerust.AuthServer.Stream.{write_all}
use azerust.AuthServer.Packets.{ConnectRequest, put_array, put_reply}
use azerust.AuthServer.ClientPackets.{put_connect_request}
use azerust.AuthServer.Message.{
  Message, connect_message, re_connect_message, command_len, decode_message,
}
use azerust.AuthServer.Message.Reading.{read_packet_whole}
use azerust.AuthServer.Message.RoundTrip.{IsConnectRequest, connect_request_roundtrip}
use azerust.AuthServer.Handlers.{
  RequestState, start, connect_challenge, reconnect_challenge, realmlist, Context,
  handle_connect_request, handle_reconnect_request, read_username, rejected,
}
use azerust.AuthServer.Connection.{next_message, round, connect_loop, dispatch, after_round}

module _ (e : Bincode) where
  pub length-put_array : (bs : List ℕ) → length (put_array e bs) ≡ length bs
  unfolding put_array
  length-put_array [] = refl
  length-put_array (b ∷ bs) = rw (e.put_int_lem 1 b) (ap suc (length-put_array bs))

  pub length-put_int : (w n : ℕ) → length (e.put_int w n) ≡ w
  length-put_int w n = rw (e.put_int_lem w n) (length-le_bytes w n)

  length-put_connect_request :
      (r : ConnectRequest)
      → IsConnectRequest e r
      → length (put_connect_request e r) ≡ command_len connect
  unfolding put_connect_request command_len
  length-put_connect_request r (_, _, (g, _), _, _, _, _, (p, _), (o, _), (k, _), _, (i, _), _) =
      simp (length-append, length-put_int, length-put_array, g, p, o, k, i) (omega arith)

module _ {A R : Type 0} (c : Crypto) (e : Bincode) (accounts : AccountService A)
    (realms : RealmList R) where
  -- the context when a segment has been read up to `left`
  abbrev behind : Context A R → List ℕ → List (List ℕ) → Context A R
  behind x left rest = record x { stream = record x.stream { input = left ∷ rest } }

  request_arrives :
      (command : AuthCommand) (message : ConnectRequest → Message) (r : ConnectRequest)
      (left : List ℕ) (rest : List (List ℕ)) (x : Context A R)
      → IsConnectRequest e r
      → x.stream.input ≡ (auth_command_code command ∷ put_connect_request e r ++ left) ∷ rest
      → command_len command ≡ command_len connect
      → decode_message e command (put_connect_request e r) ≡ ok (message r)
      → next_message c e accounts realms x ≡ (ok (message r), behind x left rest)
  request_arrives command message r left rest x valid h long decoded =
      let body = put_connect_request e r in
      let size : length body ≡ command_len command =
        length-put_connect_request e r valid ∙ sym long in
      let read =
        read_packet_whole e x.stream (auth_command_code command) (body ++ left) rest command h
          (auth_command_from_code command) (omega (arith, length-append body left)) in
      rw (
        read,
        take-append (command_len command) body left size,
        drop-append (command_len command) body left size,
        decoded,
      )

  connect_arrives :
      (r : ConnectRequest) (left : List ℕ) (rest : List (List ℕ)) (x : Context A R)
      → IsConnectRequest e r
      → x.stream.input ≡ (0 ∷ put_connect_request e r ++ left) ∷ rest
      → next_message c e accounts realms x ≡ (ok (connect_message r), behind x left rest)
  unfolding decode_message auth_command_code
  connect_arrives r left rest x valid h =
      request_arrives connect connect_message r left rest x valid h refl
        (rw (connect_request_roundtrip e r valid) refl)

  re_connect_arrives :
      (r : ConnectRequest) (left : List ℕ) (rest : List (List ℕ)) (x : Context A R)
      → IsConnectRequest e r
      → x.stream.input ≡ (2 ∷ put_connect_request e r ++ left) ∷ rest
      → next_message c e accounts realms x ≡ (ok (re_connect_message r), behind x left rest)
  unfolding decode_message auth_command_code command_len
  re_connect_arrives r left rest x valid h =
      request_arrives re_connect re_connect_message r left rest x valid h refl
        (rw (connect_request_roundtrip e r valid) refl)

  dispatch_connect :
      (st : RequestState) (r : ConnectRequest) (x : Context A R)
      → dispatch c e accounts realms st (connect_message r) x
        ≡ handle_connect_request c e accounts r x
  unfolding dispatch
  dispatch_connect start r x = refl
  dispatch_connect (connect_challenge token) r x = refl
  dispatch_connect (reconnect_challenge token) r x = refl
  dispatch_connect realmlist r x = refl
  dispatch_connect (rejected command reason) r x = refl

  round_lem :
      (r : ConnectRequest) (left : List ℕ) (rest : List (List ℕ)) (st : RequestState)
      (x : Context A R)
      → IsConnectRequest e r
      → x.stream.input ≡ (0 ∷ put_connect_request e r ++ left) ∷ rest
      → round c e accounts realms st x ≡ handle_connect_request c e accounts r (behind x left rest)
  unfolding round
  round_lem r left rest st x valid h =
      rw (connect_arrives r left rest x valid h) (dispatch_connect st r (behind x left rest))

  dispatch_re_connect :
      (st : RequestState) (r : ConnectRequest) (x : Context A R)
      → dispatch c e accounts realms st (re_connect_message r) x
        ≡ handle_reconnect_request c e accounts r x
  unfolding dispatch
  dispatch_re_connect start r x = refl
  dispatch_re_connect (connect_challenge token) r x = refl
  dispatch_re_connect (reconnect_challenge token) r x = refl
  dispatch_re_connect realmlist r x = refl
  dispatch_re_connect (rejected command reason) r x = refl

  re_connect_round :
      (r : ConnectRequest) (left : List ℕ) (rest : List (List ℕ)) (st : RequestState)
      (x : Context A R)
      → IsConnectRequest e r
      → x.stream.input ≡ (2 ∷ put_connect_request e r ++ left) ∷ rest
      → round c e accounts realms st x
        ≡ handle_reconnect_request c e accounts r (behind x left rest)
  unfolding round
  re_connect_round r left rest st x valid h =
      rw (re_connect_arrives r left rest x valid h) (dispatch_re_connect st r (behind x left rest))

  -- the context when the three bytes that refuse the version have been written too
  abbrev pub refused : Context A R → ℕ → List ℕ → List (List ℕ) → ℕ → Context A R
  refused x command left rest left_writes = record x {
    stream = record {
      input = left ∷ rest;
      output = x.stream.output ++ (command ∷ 0 ∷ 9 ∷ []) ∷ [];
      writes_left = left_writes;
    };
  }

  -- A request of a login (0) or a reconnect (2) that comes whole in one segment, from a client of
  -- another build than 12340, is answered with the three bytes that refuse its version, where the
  -- socket takes one more write, and the connection ends.
  pub other_build_refused :
      (fuel left_writes : ℕ) (again : Bool) (r : ConnectRequest) (left : List ℕ)
      (rest : List (List ℕ)) (st : RequestState) (x : Context A R)
      → IsConnectRequest e r
      → x.stream.input ≡ ((if again then 2 else 0) ∷ put_connect_request e r ++ left) ∷ rest
      → x.stream.writes_left ≡ suc left_writes
      → r.build ≢ 12340
      → connect_loop c e accounts realms (suc fuel) st x
        ≡ some (ok tt, refused x (if again then 2 else 0) left rest left_writes)
  unfolding connect_loop after_round handle_connect_request handle_reconnect_request write_all
  other_build_refused fuel w false r left rest st x valid h writes build =
      let other : (r.build == 12340) ≡ false = ground arith in
      let refusal : put_reply e AuthCommand.connect ReturnCode.version_invalid ≡ 0 ∷ 0 ∷ 9 ∷ [] =
        unfold put_reply auth_command_code return_code in
        rw (e.put_int_lem 1 0, e.put_int_lem 1 9) refl in
      rw (round_lem r left rest st x valid h, other, refusal, writes)
  other_build_refused fuel w true r left rest st x valid h writes build =
      let other : (r.build == 12340) ≡ false = ground arith in
      let refusal : put_reply e AuthCommand.re_connect ReturnCode.version_invalid ≡ 2 ∷ 0 ∷ 9 ∷ [] =
        unfold put_reply auth_command_code return_code in
        rw (e.put_int_lem 1 0, e.put_int_lem 1 2, e.put_int_lem 1 9) refl in
      rw (re_connect_round r left rest st x valid h, other, refusal, writes)

  pub long_name_round :
      (again : Bool) (r : ConnectRequest) (left : List ℕ) (rest : List (List ℕ)) (st : RequestState)
      (x : Context A R)
      → IsConnectRequest e r
      → x.stream.input ≡ ((if again then 2 else 0) ∷ put_connect_request e r ++ left) ∷ rest
      → r.build ≡ 12340
      → 16 < r.identifier_length
      → round c e accounts realms st x ≡ (panic, behind x left rest)
  unfolding handle_connect_request handle_reconnect_request read_username
  long_name_round false r left rest st x valid h build long =
      let too_long : ltb 16 r.identifier_length ≡ true = ground arith in
      rw (round_lem r left rest st x valid h, build, too_long)
  long_name_round true r left rest st x valid h build long =
      let too_long : ltb 16 r.identifier_length ≡ true = ground arith in
      rw (re_connect_round r left rest st x valid h, build, too_long)

  -- A client of build 12340 whose login request comes whole in one segment and names more than 16
  -- bytes of user name makes the connection panic.
  pub long_name_panics :
      (fuel : ℕ) (r : ConnectRequest) (left : List ℕ) (rest : List (List ℕ)) (st : RequestState)
      (x : Context A R)
      → IsConnectRequest e r
      → x.stream.input ≡ (0 ∷ put_connect_request e r ++ left) ∷ rest
      → r.build ≡ 12340
      → 16 < r.identifier_length
      → connect_loop c e accounts realms (suc fuel) st x ≡ some (panic, behind x left rest)
  unfolding connect_loop after_round
  long_name_panics fuel r left rest st x valid h build long =
      rw (long_name_round false r left rest st x valid h build long)
