-- ===== src/Prelude/Falls.antt =====
-- Code that does not raise a measure of its state: one rule for each way to build code.
use Prim.Native.Nat.{ℕ, ◌≤◌, ◌<◌}
use mathlib.Core.Path.{◌≡◌, refl}
use mathlib.Core.Bool.{Bool, true, false}
use native.Mathlib.Omega.{arith}
use native.Mathlib.Nat.{le_refl, le_trans}
use azerust.Prelude.Tests.{if◌then◌else◌}
use azerust.Prelude.Outcome.{Outcome, ok, err, panic}
use azerust.Prelude.Exec.{Exec, pure, raise, lift, stop, match_result, raise_as, ◌>>=◌}

-- `m` keeps the measure or lowers it, however it ends.
pub record Falls {S E A : Type 0} (μ : S → ℕ) (m : Exec S E A) : Type 0 where
  pub at : (s : S) → μ (m s).1 ≤ μ s

module _ {S E A : Type 0} {μ : S → ℕ} where
  pub Falls-pure : (a : A) → Falls {E = E} μ (pure a)
  Falls-pure a = record { at = λ s. le_refl _ }

  pub Falls-raise : (e : E) → Falls {A = A} μ (raise e)
  Falls-raise e = record { at = λ s. le_refl _ }

  pub Falls-lift : (r : Outcome E A) → Falls μ (lift r)
  Falls-lift r = record { at = λ s. le_refl _ }

  pub Falls-stop : Falls {E = E} {A = A} μ stop
  Falls-stop = record { at = λ s. le_refl _ }

  pub Falls-if :
      (b : Bool) (m n : Exec S E A) → Falls μ m → Falls μ n → Falls μ (if b then m else n)
  Falls-if true m n km kn = km
  Falls-if false m n km kn = kn

module _ {S E F A B : Type 0} {μ : S → ℕ} where
  Falls-branch :
      (good : A → Exec S F B) (bad : E → Exec S F B) (r : Outcome E A)
      → ((a : A) → Falls μ (good a))
      → ((e : E) → Falls μ (bad e))
      → Falls μ (match_result (lift r) good bad)
  Falls-branch good bad (ok a) kg kb = kg a
  Falls-branch good bad (err e) kg kb = kb e
  Falls-branch good bad panic kg kb = Falls-stop

  pub Falls-match_result :
      (m : Exec S E A) (good : A → Exec S F B) (bad : E → Exec S F B)
      → Falls μ m
      → ((a : A) → Falls μ (good a))
      → ((e : E) → Falls μ (bad e))
      → Falls μ (match_result m good bad)
  Falls-match_result m good bad km kg kb = record {
    at = λ s. let (r, t) = m s in le_trans ((Falls-branch good bad r kg kb).at t) (km.at s);
  }

module _ {S E A B : Type 0} {μ : S → ℕ} where
  Falls-continue :
      (f : A → Exec S E B) (r : Outcome E A) → ((a : A) → Falls μ (f a)) → Falls μ (lift r >>= f)
  Falls-continue f (ok a) kf = kf a
  Falls-continue f (err e) kf = Falls-raise e
  Falls-continue f panic kf = Falls-stop

  pub Falls-bind :
      (m : Exec S E A) (f : A → Exec S E B)
      → Falls μ m
      → ((a : A) → Falls μ (f a))
      → Falls μ (m >>= f)
  Falls-bind m f km kf = record {
    at = λ s. let (r, t) = m s in le_trans ((Falls-continue f r kf).at t) (km.at s);
  }

pub ruleset falls_rules =
    (Falls-pure, Falls-raise, Falls-lift, Falls-stop, Falls-if, Falls-match_result, Falls-bind)

-- A sequence that returns lowers the measure if its first part does so when it returns.
module _ {S E A B : Type 0} {μ : S → ℕ} where
  strict_from :
      (r : Outcome E A) (t : S) (f : A → Exec S E B) (b : B) (n : ℕ)
      → ((a : A) → r ≡ ok a → μ t < n)
      → ((a : A) → Falls μ (f a))
      → ((lift r >>= f) t).0 ≡ ok b
      → μ ((lift r >>= f) t).1 < n
  strict_from (ok a) t f b n less kf h = omega (arith, less a refl, (kf a).at t)
  strict_from (err e) t f b n less kf h = cc
  strict_from panic t f b n less kf h = cc

  pub bind_strict :
      (m : Exec S E A) (f : A → Exec S E B) (s : S) (b : B)
      → ((a : A) → (m s).0 ≡ ok a → μ (m s).1 < μ s)
      → ((a : A) → Falls μ (f a))
      → ((m >>= f) s).0 ≡ ok b
      → μ ((m >>= f) s).1 < μ s
  bind_strict m f s b less kf h = let (r, t) = m s in strict_from r t f b (μ s) less kf h

module _ {S E F A : Type 0} where
  raise_as_from :
      (f : E → F) (r : Outcome E A) (t : S) (a : A)
      → (raise_as f (lift r) t).0 ≡ ok a
      → (r ≡ ok a) × ((raise_as f (lift r) t).1 ≡ t)
  raise_as_from f (ok b) t a h = (cc, refl)
  raise_as_from f (err e) t a h = cc
  raise_as_from f panic t a h = cc

  pub raise_as_ok :
      (f : E → F) (m : Exec S E A) (s : S) (a : A)
      → (raise_as f m s).0 ≡ ok a
      → ((m s).0 ≡ ok a) × ((raise_as f m s).1 ≡ (m s).1)
  raise_as_ok f m s a h = let (r, t) = m s in raise_as_from f r t a h
