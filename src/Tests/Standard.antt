-- ===== src/Tests/Standard.antt =====
-- SHA-1 and exponentiation by squaring, under which the tests of crates/wow-srp can be run.
use azerust.Prelude.{
  ℕ, zero, suc, ◌+◌, ◌-◌, ◌*◌, ◌/◌, ◌%◌, ◌^◌, ◌≤◌, ◌≡◌, refl, sym, ap, ◌∙◌, List, [], ◌∷◌, ◌++◌,
  length, drop, replicate, All, IsByte, ltb, ◌==◌, true, false, arith, Bool-cases, inl, inr,
}
use azerust.Prelude.Powers.{pow-mul, pow-mod, mul-mod_right}
use native.Mathlib.Nat.{mul_comm, pow-zero, pow-suc, one-mul}
use Prim.Native.Nat.{bit_and, bit_or, bit_xor}
use azerust.Crypto.{Crypto}
use azerust.Tests.Instances.{crypto}

abbrev rotate : ℕ → ℕ → ℕ
rotate k x = (x * 2 ^ k + x / 2 ^ (32 - k)) % 2 ^ 32

pub record Words : Type 0 where
  pub a : ℕ
  pub b : ℕ
  pub c : ℕ
  pub d : ℕ
  pub e : ℕ

-- the function and the constant of round t
abbrev mix : ℕ → Words → ℕ
mix t w = elim (ltb t 20) [
  | true ↦ bit_or (bit_and w.b w.c) (bit_and (2 ^ 32 - 1 - w.b) w.d) + 0x5A827999
  | false ↦ elim (ltb t 40) [
    | true ↦ bit_xor (bit_xor w.b w.c) w.d + 0x6ED9EBA1
    | false ↦ elim (ltb t 60) [
      | true ↦ bit_or (bit_or (bit_and w.b w.c) (bit_and w.b w.d)) (bit_and w.c w.d) + 0x8F1BBCDC
      | false ↦ bit_xor (bit_xor w.b w.c) w.d + 0xCA62C1D6
    ]
  ]
]

abbrev at : ℕ → List ℕ → ℕ
at i [] = 0
at zero (x ∷ xs) = x
at (suc i) (x ∷ xs) = at i xs

-- the last `left` of the 80 rounds, with the window of 16 words
abbrev rounds : ℕ → List ℕ → Words → Words
rounds zero window w = w
rounds (suc left) window w =
    rounds left
      (drop 1 window
        ++ rotate 1
            (bit_xor (bit_xor (at 13 window) (at 8 window)) (bit_xor (at 2 window) (at 0 window)))
          ∷ [])
      (record {
        a = (rotate 5 w.a + mix (79 - left) w + w.e + at 0 window) % 2 ^ 32;
        b = w.a;
        c = rotate 30 w.b;
        d = w.c;
        e = w.d;
      })

abbrev words : ℕ → List ℕ → List ℕ
words zero bs = []
words (suc k) bs =
    (at 0 bs * 2 ^ 24 + at 1 bs * 2 ^ 16 + at 2 bs * 2 ^ 8 + at 3 bs) ∷ words k (drop 4 bs)

abbrev blocks : ℕ → List ℕ → Words → Words
blocks zero bs h = h
blocks (suc k) bs h =
    let r = rounds 80 (words 16 bs) h in
    blocks k (drop 64 bs) (record {
      a = (h.a + r.a) % 2 ^ 32;
      b = (h.b + r.b) % 2 ^ 32;
      c = (h.c + r.c) % 2 ^ 32;
      d = (h.d + r.d) % 2 ^ 32;
      e = (h.e + r.e) % 2 ^ 32;
    })

abbrev word_bytes : ℕ → List ℕ
word_bytes n = n / 2 ^ 24 % 256 ∷ n / 2 ^ 16 % 256 ∷ n / 2 ^ 8 % 256 ∷ n % 256 ∷ []

abbrev digest : Words → List ℕ
digest h = word_bytes h.a ++ word_bytes h.b ++ word_bytes h.c ++ word_bytes h.d ++ word_bytes h.e

abbrev padded : List ℕ → List ℕ
padded m =
    m
    ++ (128 ∷ replicate ((119 - length m % 64) % 64) 0)
    ++ word_bytes 0
    ++ word_bytes (8 * length m)

abbrev pub sha1 : List ℕ → List ℕ
sha1 m = digest (
    blocks (length (padded m) / 64) (padded m)
      (record { a = 0x67452301; b = 0xEFCDAB89; c = 0x98BADCFE; d = 0x10325476; e = 0xC3D2E1F0 }))

abc :
    sha1 (97 ∷ 98 ∷ 99 ∷ [])
    ≡ 0xA9 ∷ 0x99 ∷ 0x3E ∷ 0x36 ∷ 0x47 ∷ 0x06 ∷ 0x81 ∷ 0x6A ∷ 0xBA ∷ 0x3E ∷ 0x25 ∷ 0x71 ∷ 0x78
      ∷ 0x50 ∷ 0xC2 ∷ 0x6C ∷ 0x9C ∷ 0xD0 ∷ 0xD8 ∷ 0x9D ∷ []
abc = refl

pub digest-IsByte : (h : Words) → All IsByte (digest h)
digest-IsByte h = ground arith

-- square and multiply
abbrev square_multiply : ℕ → ℕ → ℕ → ℕ → ℕ
square_multiply zero b e m = 1 % m
square_multiply (suc fuel) b e m = elim (e == 0) [
  | true ↦ 1 % m
  | false ↦
      let half = square_multiply fuel (b * b % m) (e / 2) m in
      elim (e % 2 == 0) [ true ↦ half | false ↦ b * half % m ]
]

square-pow : (b h : ℕ) → (b * b) ^ h ≡ b ^ (2 * h)
square-pow b h =
    ap (λ (k : ℕ). k ^ h)
      (sym (
        pow-suc b 1
        ∙ ap (λ (k : ℕ). k * b) (pow-suc b 0 ∙ ap (λ (k : ℕ). k * b) (pow-zero b) ∙ one-mul b)))
    ∙ sym (pow-mul b 2 h)

odd-pow : (b h m : ℕ) → b * (b ^ (2 * h) % m) % m ≡ b ^ (2 * h + 1) % m
odd-pow b h m =
    mul-mod_right b (b ^ (2 * h)) m
    ∙ ap (λ (k : ℕ). k % m)
        (mul_comm b (b ^ (2 * h)) ∙ sym (pow-suc b (2 * h)) ∙ ap (λ (k : ℕ). b ^ k) (omega arith))

pub square_multiply_lem : (fuel b e m : ℕ) → e ≤ fuel → square_multiply fuel b e m ≡ b ^ e % m
square_multiply_lem zero b e m h =
    let none_left : e ≡ 0 = omega arith in rw none_left (ap (λ (k : ℕ). k % m) (sym (pow-zero b)))
square_multiply_lem (suc fuel) b e m h =
    let rest : square_multiply fuel (b * b % m) (e / 2) m ≡ b ^ (2 * (e / 2)) % m =
      square_multiply_lem fuel (b * b % m) (e / 2) m (omega arith)
      ∙ pow-mod (b * b) (e / 2) m
      ∙ ap (λ (k : ℕ). k % m) (square-pow b (e / 2)) in
    elim (Bool-cases (e == 0)) [
      | inl done ↦
          let none_left : e ≡ 0 = ground arith in
          rw none_left (ap (λ (k : ℕ). k % m) (sym (pow-zero b)))
      | inr more ↦ elim (Bool-cases (e % 2 == 0)) [
        | inl even ↦
            let twice : 2 * (e / 2) ≡ e = ground arith in
            rw (more, even, square_multiply) (rest ∙ ap (λ (k : ℕ). b ^ k % m) twice)
        | inr odd ↦
            let twice : 2 * (e / 2) + 1 ≡ e = ground arith in
            rw (more, odd, square_multiply)
              (ap (λ (k : ℕ). b * k % m) rest
                ∙ odd-pow b (e / 2) m
                ∙ ap (λ (k : ℕ). b ^ k % m) twice)
      ]
    ]

abbrev pub standard : Crypto
standard = record crypto {
  sha1 = sha1;
  length-sha1 = λ m. refl;
  sha1-IsByte = λ m. digest-IsByte _;
  modpow = λ b e m. square_multiply e b e m;
  modpow_lem = λ b e m h. square_multiply_lem e b e m (omega arith);
}
