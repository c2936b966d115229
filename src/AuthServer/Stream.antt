-- ===== src/AuthServer/Stream.antt =====
-- The socket of a client, as the handlers of services/auth use it. The bytes that will arrive come
-- in segments: a `read` takes bytes of one segment only, a `read_exact` goes on over the next ones,
-- and no segment left is the end of the stream. The peer accepts `writes_left` more writes.
use azerust.Prelude.{
  ℕ, zero, suc, ◌+◌, ◌≡◌, Option, some, none, List, [], ◌∷◌, ◌++◌, take, drop, length, ◌≤◌,
  length-drop, Option-cases, inl, inr, arith,
}
use azerust.Prelude.Outcome.{Outcome, ok, err}
use azerust.Prelude.Exec.{Exec}

pub record Stream : Type 0 where
  pub input : List (List ℕ)
  pub output : List (List ℕ)
  pub writes_left : ℕ

-- a failed system call, and an end of the stream inside of `read_exact`
pub data IoError : Type 0 where
  io_error : IoError

and_then : ℕ → Option (List ℕ × List (List ℕ)) → Option (List ℕ × List (List ℕ))
and_then b none = none
and_then b (some (bs, rest)) = some (b ∷ bs, rest)

-- the next `n` bytes, and the segments behind them
pub take_exact : ℕ → List (List ℕ) → Option (List ℕ × List (List ℕ))
unfolding and_then
take_exact zero segments = some ([], segments)
take_exact (suc n) [] = none
take_exact (suc n) ([] ∷ segments) = take_exact (suc n) segments
take_exact (suc n) ((b ∷ segment) ∷ segments) = and_then b (take_exact n (segment ∷ segments))

-- up to `n` bytes of the first segment that is not empty
unfoldable pub take_some : ℕ → List (List ℕ) → List ℕ × List (List ℕ)
take_some n [] = ([], [])
take_some n ([] ∷ segments) = take_some n segments
take_some n ((b ∷ segment) ∷ segments) = (take n (b ∷ segment), drop n (b ∷ segment) ∷ segments)

exact : Stream → Option (List ℕ × List (List ℕ)) → Outcome IoError (List ℕ) × Stream
exact s none = (err io_error, record s { input = [] })
exact s (some (bytes, rest)) = (ok bytes, record s { input = rest })

unfoldable pub read_exact : ℕ → Exec Stream IoError (List ℕ)
unfolding exact take_exact
read_exact n s = exact s (take_exact n s.input)

unfoldable pub read : ℕ → Exec Stream IoError (List ℕ)
unfolding take_some
read n s = let (bytes, rest) = take_some n s.input in (ok bytes, record s { input = rest })

send : List ℕ → Stream → ℕ → Outcome IoError (Unit {0}) × Stream
send bytes s zero = (err io_error, s)
send bytes s (suc left) = (ok tt, record s { output = s.output ++ bytes ∷ []; writes_left = left })

unfoldable pub write_all : List ℕ → Exec Stream IoError (Unit {0})
unfolding send
write_all bytes s = send bytes s s.writes_left

-- How many bytes are still to arrive.
abbrev pub bytes_left : List (List ℕ) → ℕ
bytes_left [] = 0
bytes_left (segment ∷ segments) = length segment + bytes_left segments

take_exact_left :
    (n : ℕ) (segments : List (List ℕ)) (bs : List ℕ) (rest : List (List ℕ))
    → take_exact n segments ≡ some (bs, rest)
    → bytes_left rest + n ≡ bytes_left segments
unfolding take_exact
take_exact_left zero segments bs rest h = ground arith
take_exact_left (suc n) [] bs rest h = cc
take_exact_left (suc n) ([] ∷ segments) bs rest h =
    omega (arith, take_exact_left (suc n) segments bs rest h)
take_exact_left (suc n) ((b ∷ segment) ∷ segments) bs rest h =
    elim (Option-cases (take_exact n (segment ∷ segments))) [
      | inl e ↦ cc (rw e at h)
      | inr ((bs', rest'), e) ↦
          ground (arith, take_exact_left n (segment ∷ segments) bs' rest' e, rw e at h)
    ]

take_some_left :
    (n : ℕ) (segments : List (List ℕ)) → bytes_left (take_some n segments).1 ≤ bytes_left segments
unfolding take_some
take_some_left n [] = omega arith
take_some_left n ([] ∷ segments) = omega (arith, take_some_left n segments)
take_some_left n ((b ∷ segment) ∷ segments) = omega (arith, length-drop n (b ∷ segment))

-- A `read_exact` that returns takes its bytes off the stream; none adds bytes.
pub read_exact_left :
    (n : ℕ) (s : Stream) (bs : List ℕ)
    → (read_exact n s).0 ≡ ok bs
    → bytes_left (read_exact n s).1.input + n ≡ bytes_left s.input
unfolding read_exact
read_exact_left n s bs h = elim (Option-cases (take_exact n s.input)) [
  | inl e ↦ cc (rw (e, read_exact) at h)
  | inr ((bs', rest'), e) ↦ rw (e, read_exact) (take_exact_left n s.input bs' rest' e)
]

pub read_exact_left_le :
    (n : ℕ) (s : Stream) → bytes_left (read_exact n s).1.input ≤ bytes_left s.input
unfolding read_exact
read_exact_left_le n s = elim (Option-cases (take_exact n s.input)) [
  | inl e ↦ rw (e, read_exact) (omega arith)
  | inr ((bs', rest'), e) ↦
      rw (e, read_exact) (omega (arith, take_exact_left n s.input bs' rest' e))
]

pub read_left_le : (n : ℕ) (s : Stream) → bytes_left (read n s).1.input ≤ bytes_left s.input
unfolding read
read_left_le n s = take_some_left n s.input

pub write_all_left : (bs : List ℕ) (s : Stream) → (write_all bs s).1.input ≡ s.input
unfolding write_all
write_all_left bs s = ground arith
