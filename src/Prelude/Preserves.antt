-- ===== src/Prelude/Preserves.antt =====
-- Code that keeps a property of its state: one rule for each way to build code.
use mathlib.Core.Bool.{Bool, true, false}
use azerust.Prelude.Tests.{if◌then◌else◌}
use azerust.Prelude.Outcome.{Outcome, ok, err, panic}
use azerust.Prelude.Exec.{Exec, pure, raise, lift, gets, stop, match_result, ◌>>=◌}

-- `m` keeps `P`, however it ends.
pub record Preserves {S E A : Type 0} (P : S → Type 0) (m : Exec S E A) : Type 0 where
  pub at : (s : S) → P s → P (m s).1

module _ {S E A : Type 0} {P : S → Type 0} where
  pub Preserves-pure : (a : A) → Preserves {E = E} P (pure a)
  Preserves-pure a = record { at = λ s h. h }

  pub Preserves-raise : (e : E) → Preserves {A = A} P (raise e)
  Preserves-raise e = record { at = λ s h. h }

  pub Preserves-lift : (r : Outcome E A) → Preserves P (lift r)
  Preserves-lift r = record { at = λ s h. h }

  pub Preserves-gets : (g : S → A) → Preserves {E = E} P (gets g)
  Preserves-gets g = record { at = λ s h. h }

  pub Preserves-stop : Preserves {E = E} {A = A} P stop
  Preserves-stop = record { at = λ s h. h }

  pub Preserves-if :
      (b : Bool) (m n : Exec S E A)
      → Preserves P m
      → Preserves P n
      → Preserves P (if b then m else n)
  Preserves-if true m n km kn = km
  Preserves-if false m n km kn = kn

module _ {S E F A B : Type 0} {P : S → Type 0} where
  Preserves-branch :
      (good : A → Exec S F B) (bad : E → Exec S F B) (r : Outcome E A)
      → ((a : A) → Preserves P (good a))
      → ((e : E) → Preserves P (bad e))
      → Preserves P (match_result (lift r) good bad)
  Preserves-branch good bad (ok a) kg kb = kg a
  Preserves-branch good bad (err e) kg kb = kb e
  Preserves-branch good bad panic kg kb = Preserves-stop

  pub Preserves-match_result :
      (m : Exec S E A) (good : A → Exec S F B) (bad : E → Exec S F B)
      → Preserves P m
      → ((a : A) → Preserves P (good a))
      → ((e : E) → Preserves P (bad e))
      → Preserves P (match_result m good bad)
  Preserves-match_result m good bad km kg kb = record {
    at = λ s h. let (r, t) = m s in (Preserves-branch good bad r kg kb).at t (km.at s h);
  }

module _ {S E A B : Type 0} {P : S → Type 0} where
  Preserves-continue :
      (g : A → Exec S E B) (r : Outcome E A)
      → ((a : A) → Preserves P (g a))
      → Preserves P (lift r >>= g)
  Preserves-continue g (ok a) kg = kg a
  Preserves-continue g (err e) kg = Preserves-raise e
  Preserves-continue g panic kg = Preserves-stop

  pub Preserves-bind :
      (m : Exec S E A) (g : A → Exec S E B)
      → Preserves P m
      → ((a : A) → Preserves P (g a))
      → Preserves P (m >>= g)
  Preserves-bind m g km kg = record {
    at = λ s h. let (r, t) = m s in (Preserves-continue g r kg).at t (km.at s h);
  }

pub ruleset preserves_rules = (
  Preserves-pure, Preserves-raise, Preserves-lift, Preserves-gets, Preserves-stop, Preserves-if,
  Preserves-match_result, Preserves-bind,
)
