-- ===== src/Prelude/Returns.antt =====
-- What holds of the value of code that returns, whatever its state: one rule for each way to build
-- code.
use mathlib.Core.Path.{◌≡◌, refl, subst}
use azerust.Prelude.Outcome.{Outcome, ok, err, panic}
use azerust.Prelude.Exec.{Exec, pure, lift, ◌>>=◌}

pub record Returns {S E A : Type 0} (P : A → Type 0) (m : Exec S E A) : Type 0 where
  pub of : (s : S) (a : A) → (m s).0 ≡ ok a → P a

module _ {S E A : Type 0} {P : A → Type 0} where
  pub Returns-pure : (a : A) → P a → Returns {S = S} {E = E} P (pure a)
  Returns-pure a p = record { of = λ s b h. let same : a ≡ b = cc in subst P same p }

module _ {S E A B : Type 0} {P : B → Type 0} where
  returns_from :
      (r : Outcome E A) (t : S) (f : A → Exec S E B) (b : B)
      → ((a : A) → r ≡ ok a → Returns P (f a))
      → ((lift r >>= f) t).0 ≡ ok b
      → P b
  returns_from (ok a) t f b kf h = (kf a refl).of t b h
  returns_from (err e) t f b kf h = cc
  returns_from panic t f b kf h = cc

  pub Returns-bind :
      (m : Exec S E A) (f : A → Exec S E B) → ((a : A) → Returns P (f a)) → Returns P (m >>= f)
  Returns-bind m f kf = record {
    of = λ s b h. let (r, t) = m s in returns_from r t f b (λ a _. kf a) h;
  }

  pub Returns-lift :
      (r : Outcome E A) (f : A → Exec S E B)
      → ((a : A) → r ≡ ok a → Returns P (f a))
      → Returns P (lift r >>= f)
  Returns-lift r f kf = record { of = λ s b h. returns_from r s f b kf h }
