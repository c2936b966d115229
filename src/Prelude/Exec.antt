-- ===== src/Prelude/Exec.antt =====
-- Code that changes a state and may fail. What was changed before a failure stays changed, so the
-- state comes back beside the error too.
use mathlib.Core.Path.{◌≡◌, refl}
use azerust.Prelude.{◌≢◌}
use azerust.Prelude.Outcome.{Outcome, ok, err, panic}

abbrev pub Exec {ℓ κ ι} : Type ℓ → Type κ → Type ι → Type (ℓ ⊔ κ ⊔ ι)
Exec S E A = S → Outcome E A × S

module _ {ℓ κ ι} {S : Type ℓ} {E : Type κ} {A : Type ι} where
  abbrev pub pure : A → Exec S E A
  pure a s = (ok a, s)

  abbrev pub raise : E → Exec S E A
  raise e s = (err e, s)

  abbrev pub lift : Outcome E A → Exec S E A
  lift r s = (r, s)

  abbrev pub gets : (S → A) → Exec S E A
  gets f s = (ok (f s), s)

module _ {ℓ κ} {S : Type ℓ} {E : Type κ} where
  abbrev pub modify : (S → S) → Exec S E (Unit {0})
  modify f s = (ok tt, f s)

  abbrev pub stop {ι} : {A : Type ι} → Exec S E A
  stop s = (panic, s)

module _ {ℓ κ ι ξ} {S : Type ℓ} {E : Type κ} {A : Type ι} {B : Type ξ} where
  abbrev continue : (A → Exec S E B) → Outcome E A × S → Outcome E B × S
  continue f (ok a, s) = f a s
  continue f (err e, s) = (err e, s)
  continue f (panic, s) = (panic, s)

  infixl 5 ◌>>=◌ ◌>>◌
  abbrev pub ◌>>=◌ : Exec S E A → (A → Exec S E B) → Exec S E B
  ◌>>=◌ m f s = continue f (m s)

  abbrev pub ◌>>◌ : Exec S E A → Exec S E B → Exec S E B
  m >> k = m >>= λ _. k

-- `match m { Ok(a) => good(a), Err(e) => bad(e) }`; a panic passes through.
module _ {ℓ κ ι ξ φ} {S : Type ℓ} {E : Type κ} {F : Type φ} {A : Type ι} {B : Type ξ} where
  abbrev branch : (A → Exec S F B) → (E → Exec S F B) → Outcome E A × S → Outcome F B × S
  branch good bad (ok a, s) = good a s
  branch good bad (err e, s) = bad e s
  branch good bad (panic, s) = (panic, s)

  abbrev pub match_result : Exec S E A → (A → Exec S F B) → (E → Exec S F B) → Exec S F B
  match_result m good bad s = branch good bad (m s)

-- `map_err`
abbrev pub raise_as {ℓ κ ι φ} :
    {S : Type ℓ} {E : Type κ} {F : Type φ} {A : Type ι} → (E → F) → Exec S E A → Exec S F A
raise_as f m = match_result m pure (λ e. raise (f e))

-- Code that acts on a part of the state.
abbrev pub on_part {ℓ μ κ ι} :
    {S : Type ℓ} {T : Type μ} {E : Type κ} {A : Type ι}
    → (S → T)
    → (S → T → S)
    → Exec T E A
    → Exec S E A
on_part get put m s = let (r, t) = m (get s) in (r, put s t)

-- Inversion of a successful sequence.
module _ {ℓ κ ι ξ} {S : Type ℓ} {E : Type κ} {A : Type ι} {B : Type ξ} where
  bind_ok_from :
      (r : Outcome E A) (s : S) (f : A → Exec S E B) (b : B) (s' : S)
      → continue f (r, s) ≡ (ok b, s')
      → (a : A) × (r ≡ ok a) × (f a s ≡ (ok b, s'))
  bind_ok_from (ok a) s f b s' h = (a, refl, h)
  bind_ok_from (err e) s f b s' h = cc
  bind_ok_from panic s f b s' h = cc

  pub bind_ok :
      (m : Exec S E A) (f : A → Exec S E B) (s : S) (b : B) (s' : S)
      → (m >>= f) s ≡ (ok b, s')
      → (a : A) × ((m s).0 ≡ ok a) × (f a (m s).1 ≡ (ok b, s'))
  bind_ok m f s b s' h = let (r, t) = m s in bind_ok_from r t f b s' h

  bind_panic_from :
      (r : Outcome E A) (s : S) (f : A → Exec S E B) → r ≡ panic → (continue f (r, s)).0 ≡ panic
  bind_panic_from (ok a) s f h = cc
  bind_panic_from (err e) s f h = cc
  bind_panic_from panic s f h = refl

  pub bind_panic :
      (m : Exec S E A) (f : A → Exec S E B) (s : S) → (m s).0 ≡ panic → ((m >>= f) s).0 ≡ panic
  bind_panic m f s h = let (r, t) = m s in bind_panic_from r t f h

-- Two bodies that agree on what comes before them, and a body that only ends.
module _ {ℓ κ ι ξ} {S : Type ℓ} {E : Type κ} {A : Type ι} {B : Type ξ} where
  bind_same_from :
      (r : Outcome E A) (t : S) (f g : A → Exec S E B)
      → ((a : A) → r ≡ ok a → f a t ≡ g a t)
      → (lift r >>= f) t ≡ (lift r >>= g) t
  bind_same_from (ok a) t f g same = same a refl
  bind_same_from (err e) t f g same = refl
  bind_same_from panic t f g same = refl

  pub bind_same :
      (m : Exec S E A) (f g : A → Exec S E B) (s : S)
      → ((a : A) (t : S) → (m s).0 ≡ ok a → f a t ≡ g a t)
      → (m >>= f) s ≡ (m >>= g) s
  bind_same m f g s same = let (r, t) = m s in bind_same_from r t f g (λ a h. same a t h)

module _ {ℓ κ} {S : Type ℓ} {E : Type κ} where
  bind_unit_from : (r : Outcome E (Unit {0})) (t : S) → continue (λ _. pure tt) (r, t) ≡ (r, t)
  bind_unit_from (ok tt) t = refl
  bind_unit_from (err e) t = refl
  bind_unit_from panic t = refl

  pub bind_unit : (m : Exec S E (Unit {0})) (s : S) → (m >>= λ _. pure tt) s ≡ m s
  bind_unit m s = let (r, t) = m s in bind_unit_from r t

-- An error that is only renamed changes no success.
module _ {ℓ κ ι φ} {S : Type ℓ} {E : Type κ} {F : Type φ} {A : Type ι} where
  raise_as_returns_from :
      (f : E → F) (r : Outcome E A × S) (a : A) (s' : S)
      → branch pure (λ e. raise (f e)) r ≡ (ok a, s')
      → r ≡ (ok a, s')
  raise_as_returns_from f (ok b, t) a s' h = cc
  raise_as_returns_from f (err e, t) a s' h = cc
  raise_as_returns_from f (panic, t) a s' h = cc

  pub raise_as_returns :
      (f : E → F) (m : Exec S E A) (s : S) (a : A) (s' : S)
      → raise_as f m s ≡ (ok a, s')
      → m s ≡ (ok a, s')
  raise_as_returns f m s a s' h = raise_as_returns_from f (m s) a s' h

-- A sequence panics only where one of its parts does.
module _ {S E A B : Type 0} where
  continue_calm :
      (f : A → Exec S E B) (p : Outcome E A × S)
      → p.0 ≢ panic
      → ((a : A) (s : S) → (f a s).0 ≢ panic)
      → (continue f p).0 ≢ panic
  continue_calm f (ok a, s) calm rest = rest a s
  continue_calm f (err e, s) calm rest = λ h. cc
  continue_calm f (panic, s) calm rest = absurd (calm refl)

  pub bind_calm :
      (m : Exec S E A) (f : A → Exec S E B) (s : S)
      → (m s).0 ≢ panic
      → ((a : A) (s : S) → (f a s).0 ≢ panic)
      → ((m >>= f) s).0 ≢ panic
  bind_calm m f s = continue_calm f (m s)
