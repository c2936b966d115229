-- ===== src/Prelude/Powers.antt =====
-- Powers, and powers modulo a number.
use Prim.Native.Nat.{ℕ, zero, suc, ◌+◌, ◌*◌, ◌/◌, ◌%◌, ◌^◌}
use mathlib.Core.Path.{◌≡◌, sym, ap, ◌∙◌}
use native.Mathlib.Omega.{arith}
use native.Mathlib.Nat.{
  pow-suc, pow-zero, add-zero, add-suc, mul-zero, mul-one, mul-mul-mul_comm, add-mul-mod_self_left,
  div-add-mod, mul_comm, mul_assoc,
}

pub pow-add : (b m n : ℕ) → b ^ (m + n) ≡ b ^ m * b ^ n
pow-add b m zero = simp (add-zero, pow-zero, mul-one)
pow-add b m (suc n) =
    rw (add-suc, pow-suc b (m + n), pow-suc b n, pow-add b m n) (mul_assoc (b ^ m) (b ^ n) b)

pub pow-mul : (b m n : ℕ) → b ^ (m * n) ≡ (b ^ m) ^ n
pow-mul b m zero = simp (mul-zero, pow-zero)
pow-mul b m (suc n) = omega (
  arith,
  ap (λ (k : ℕ). b ^ k) (let e : m * suc n ≡ m * n + m = omega arith in e),
  pow-add b (m * n) m,
  pow-suc (b ^ m) n,
  ap (λ (k : ℕ). k * b ^ m) (pow-mul b m n),
)

pub mul_pow : (a b n : ℕ) → (a * b) ^ n ≡ a ^ n * b ^ n
mul_pow a b zero = simp (pow-zero, mul-one)
mul_pow a b (suc n) =
    rw (pow-suc (a * b) n, pow-suc a n, pow-suc b n, mul_pow a b n) (mul-mul-mul_comm _ _ _ _)

pub mul-mod_left : (a b m : ℕ) → (a % m) * b % m ≡ a * b % m
mul-mod_left a b m =
    sym (add-mul-mod_self_left ((a % m) * b) m ((a / m) * b))
    ∙ ap (λ (k : ℕ). k % m) (omega (arith, ap (λ (k : ℕ). k * b) (div-add-mod a m)))

pub mul-mod_right : (a b m : ℕ) → a * (b % m) % m ≡ a * b % m
mul-mod_right a b m =
    ap (λ (k : ℕ). k % m) (mul_comm a (b % m))
    ∙ mul-mod_left b a m
    ∙ ap (λ (k : ℕ). k % m) (mul_comm b a)

pub pow-mod : (b n m : ℕ) → (b % m) ^ n % m ≡ b ^ n % m
pow-mod b zero m = simp pow-zero
pow-mod b (suc n) m =
    ap (λ (k : ℕ). k % m) (pow-suc (b % m) n)
    ∙ sym (mul-mod_left ((b % m) ^ n) (b % m) m)
    ∙ ap (λ (k : ℕ). k * (b % m) % m) (pow-mod b n m)
    ∙ mul-mod_left (b ^ n) (b % m) m
    ∙ mul-mod_right (b ^ n) b m
    ∙ sym (ap (λ (k : ℕ). k % m) (pow-suc b n))
