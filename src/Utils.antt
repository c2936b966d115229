-- ===== src/Utils.antt =====
-- crates/utils/src/lib.rs: the result of a spawned task.
use azerust.Prelude.{◌≡◌}
use azerust.Prelude.Outcome.{Outcome, ok, err, panic}

-- an error of the task, and a join that failed since the task panicked
pub data TaskError {ℓ} (E : Type ℓ) : Type ℓ where
  inner : E → TaskError E
  join_failed : TaskError E

abbrev pub flatten {ℓ κ} : {E : Type ℓ} {A : Type κ} → Outcome E A → Outcome (TaskError E) A
flatten (ok a) = ok a
flatten (err e) = err (inner e)
flatten panic = err join_failed

pub flatten-ok {ℓ κ} :
    {E : Type ℓ} {A : Type κ} (o : Outcome E A) (a : A) → flatten o ≡ ok a → o ≡ ok a
flatten-ok (ok b) a h = cc
flatten-ok (err e) a h = cc
flatten-ok panic a h = cc
