-- ===== src/Tests/Instances.antt =====
-- Concrete libraries that have the behaviour which the records Crypto, Bincode and Schema ask for.
use azerust.Prelude.{
  ℕ, zero, suc, ◌+◌, ◌-◌, ◌/◌, ◌%◌, ◌^◌, ◌≤◌, ◌<◌, ◌≡◌, ◌≢◌, refl, Option, some, none, true, false,
  List, [], ◌∷◌, ◌++◌, length, take, drop, replicate, All, IsByte, ltb, ◌==◌, if◌then◌else◌, arith,
  le_value, le_bytes, bytes_eq, take-append, drop-append, Bool-cases, inl, inr, length-append,
}
use azerust.Prelude.Utf8.{is_utf8}
use azerust.Crypto.{Crypto}
use azerust.Bincode.{Bincode}
use azerust.MysqlAuth.Db.{Schema, AccountRow, UptimeRow}
use azerust.Game.Realms.{Realm, normal}
use mathlib.Core.List.{reverse}
use native.Mathlib.Nat.{pow-succ'}
use native.Mathlib.Numerals.{unary_clauses}

-- The bytes of a number, given fuel for its division.
abbrev digits : ℕ → ℕ → List ℕ
digits zero n = n % 256 ∷ []
digits (suc fuel) n = elim (ltb n 256) [ true ↦ n ∷ [] | false ↦ n % 256 ∷ digits fuel (n / 256) ]

pub le_value-digits : (fuel n : ℕ) → n ≤ fuel → le_value (digits fuel n) ≡ n
le_value-digits zero n h = omega arith
le_value-digits (suc fuel) n h = ground (arith, le_value-digits fuel (n / 256))

pub digits-IsByte : (fuel n : ℕ) → All IsByte (digits fuel n)
digits-IsByte zero n = (omega arith, tt)
digits-IsByte (suc fuel) n = ground (arith, digits-IsByte fuel (n / 256))

digits_some : (fuel n : ℕ) → 0 < length (digits fuel n)
digits_some zero n = omega arith
digits_some (suc fuel) n = ground arith

pub digits_shortest : (fuel n : ℕ) → n ≤ fuel → 0 < n → 256 ^ (length (digits fuel n) - 1) ≤ n
digits_shortest zero n h pos = absurd (omega arith)
digits_shortest (suc fuel) n h pos = elim (Bool-cases (ltb n 256)) [
  | inl small ↦ rw (small, digits) (omega arith)
  | inr large ↦
      rw (large, digits)
        (simp unary_clauses (
          step (length (digits fuel (n / 256))) (digits_some fuel (n / 256))
            (digits_shortest fuel (n / 256) (ground arith) (ground arith))))
]
  where
    step : (k : ℕ) → 0 < k → 256 ^ (k - 1) ≤ n / 256 → 256 ^ k ≤ n
    step zero p q = absurd (omega arith)
    step (suc k) p q =
        let q' : 256 ^ k ≤ n / 256 = simp unary_clauses at q in omega (arith, pow-succ' 256 k)

pub sha1-IsByte : (m : List ℕ) → All IsByte ((if length m == 52 then 100 else 1) ∷ replicate 19 0)
sha1-IsByte m = ground arith

-- A digest that depends on the length of the message only.
abbrev pub crypto : Crypto
crypto = record {
  sha1 = λ m. (if length m == 52 then 100 else 1) ∷ replicate 19 0;
  length-sha1 = λ m. refl;
  sha1-IsByte = sha1-IsByte;
  from_bytes_le = le_value;
  from_bytes_le_lem = λ bs. refl;
  from_bytes_be = λ bs. le_value (reverse bs);
  from_bytes_be_lem = λ bs. refl;
  to_bytes_le = λ n. digits n n;
  le_value-to_bytes_le = λ n. le_value-digits n n (omega arith);
  to_bytes_le-IsByte = λ n. digits-IsByte n n;
  to_bytes_le-zero = refl;
  to_bytes_le_shortest = λ n. digits_shortest n n (omega arith);
  modpow = λ b e m. b ^ e % m;
  modpow_lem = λ b e m h. refl;
}

abbrev get_int : ℕ → List ℕ → Option (ℕ × List ℕ)
get_int w bs = if ltb (length bs) w then none else some (le_value (take w bs), drop w bs)

pub get_int_lem :
    (w : ℕ) (bs rest : List ℕ) → length bs ≡ w → get_int w (bs ++ rest) ≡ some (le_value bs, rest)
get_int_lem w bs rest h =
    let long : ltb (length (bs ++ rest)) w ≡ false = ground (arith, length-append bs rest) in
    rw (long, take-append w bs rest h, drop-append w bs rest h)

abbrev cons_str : ℕ → Option (List ℕ × List ℕ) → Option (List ℕ × List ℕ)
cons_str b none = none
cons_str b (some (s, rest)) = some (b ∷ s, rest)

-- what stands in front of the first zero byte, and what behind it
abbrev until_zero : List ℕ → Option (List ℕ × List ℕ)
until_zero [] = none
until_zero (b ∷ bs) = if b == 0 then some ([], bs) else cons_str b (until_zero bs)

pub until_zero-append :
    (s rest : List ℕ) → All (λ b. b ≢ 0) s → until_zero (s ++ 0 ∷ rest) ≡ some (s, rest)
until_zero-append [] rest h = refl
until_zero-append (b ∷ s) rest (hb, h) =
    let other : (b == 0) ≡ false = ground arith in rw (other, until_zero-append s rest h)

abbrev checked : Option (List ℕ × List ℕ) → Option (List ℕ × List ℕ)
checked none = none
checked (some (s, rest)) = if is_utf8 s then some (s, rest) else none

abbrev pub bincode : Bincode
bincode = record {
  put_int = le_bytes;
  put_int_lem = λ w n. refl;
  get_int = get_int;
  get_int_lem = get_int_lem;
  get_int_short = λ w bs h. ground arith;
  put_str = λ s. s ++ 0 ∷ [];
  put_str_lem = λ s. refl;
  get_str = λ bs. checked (until_zero bs);
  get_str_lem = λ s rest h utf8. rw (until_zero-append s rest h, utf8);
  put_len = λ n. n ∷ [];
  put_len_small = λ n h. refl;
  accepts_rest = λ bs. elim bs [ [] ↦ true | _ ∷ _ ↦ false ];
  accepts_rest_lem = λ bs. refl;
}

abbrev pub blank_account : AccountRow
blank_account = record {
  id = 0;
  username = [];
  salt = [];
  verifier = [];
  session_key_auth = none;
  reg_mail = [];
  email = [];
  joindate = 0;
  last_ip = [];
  last_login = none;
  locale = 0;
  failed_logins = 0;
  os = [];
  online = 0;
}

abbrev pub blank_realm : Realm
blank_realm = record {
  id = 0;
  name = [];
  realm_type = normal;
  build = 12340;
  external_address = [];
  local_address = [];
  local_subnet_mask = [];
  port = 8085;
  flags = 2;
  timezone = 0;
  population = 0;
}

abbrev pub schema : Schema
schema = record {
  same_text = bytes_eq;
  new_account = blank_account;
  active_by_default = true;
  new_realm = blank_realm;
  same_uptime = λ (r u : UptimeRow). r.realmid == u.realmid;
  add_time = λ t d. some (t + d);
  add_time_sum = λ t d u h. ground arith;
}
