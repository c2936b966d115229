-- ===== src/WorldServer/Socket.antt =====
-- The writing half of the socket of a client of services/world. `limits` says what the coming writes
-- do: take that many bytes at most, or fail; behind its end a write takes all bytes.
use azerust.Prelude.{ℕ, zero, suc, Option, some, none, List, [], ◌∷◌, ◌++◌, take, drop, length}
use azerust.Prelude.Outcome.{Outcome, ok, err}
use azerust.Prelude.Exec.{Exec}
use Prim.Native.Nat.{min}

pub record Writer : Type 0 where
  pub output : List ℕ
  pub limits : List (Option ℕ)

pub data WriteError : Type 0 where
  write_failed write_zero : WriteError

write_up_to : List (Option ℕ) → List ℕ → List ℕ → Outcome WriteError ℕ × Writer
write_up_to [] bytes output = (ok (length bytes), record { output = output ++ bytes; limits = [] })
write_up_to (none ∷ limits) bytes output =
    (err write_failed, record { output = output; limits = limits })
write_up_to (some n ∷ limits) bytes output =
    (ok (min n (length bytes)), record { output = output ++ take n bytes; limits = limits })

-- `AsyncWriteExt::write`: how many bytes were taken
unfoldable pub write : List ℕ → Exec Writer WriteError ℕ
unfolding write_up_to
write bytes w = write_up_to w.limits bytes w.output

write_on : List (Option ℕ) → List ℕ → List ℕ → Outcome WriteError (Unit {0}) × Writer
write_on limits [] output = (ok tt, record { output = output; limits = limits })
write_on [] (b ∷ bytes) output = (ok tt, record { output = output ++ b ∷ bytes; limits = [] })
write_on (none ∷ limits) (b ∷ bytes) output =
    (err write_failed, record { output = output; limits = limits })
write_on (some zero ∷ limits) (b ∷ bytes) output =
    (err write_zero, record { output = output; limits = limits })
write_on (some (suc n) ∷ limits) (b ∷ bytes) output =
    write_on limits (drop n bytes) (output ++ b ∷ take n bytes)

-- `AsyncWriteExt::write_all`, which writes until nothing is left
unfoldable pub write_all : List ℕ → Exec Writer WriteError (Unit {0})
unfolding write_on
write_all bytes w = write_on w.limits bytes w.output
