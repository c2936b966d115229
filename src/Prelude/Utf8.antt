-- ===== src/Prelude/Utf8.antt =====
-- `str::from_utf8` of Rust's standard library: which byte strings are well formed UTF-8 (Unicode's
-- table of well-formed byte sequences). The state is the number of continuation bytes to come and
-- the range of the next one.
use azerust.Prelude.Tests.{ltb, leb, ◌==◌, if◌then◌else◌}
use Prim.Native.Nat.{ℕ, ◌-◌}
use mathlib.Core.Path.{◌≡◌, refl}
use mathlib.Core.Bool.{Bool, true, false, ◌&&◌}
use mathlib.Core.Option.{Option, none, some}
use mathlib.Core.List.{List, [], ◌∷◌}

pub record Utf8State : Type 0 where
  pub pending : ℕ
  pub lowest : ℕ
  pub highest : ℕ

abbrev pub between : Utf8State
between = record { pending = 0; lowest = 0x80; highest = 0xBF }

abbrev await : ℕ → ℕ → ℕ → Option Utf8State
await pending lowest highest =
    some (record { pending = pending; lowest = lowest; highest = highest })

first_byte : ℕ → Option Utf8State
first_byte b =
    if ltb b 0x80
    then some between
    else if leb 0xC2 b && leb b 0xDF
    then await 1 0x80 0xBF
    else if b == 0xE0
    then await 2 0xA0 0xBF
    else if b == 0xED
    then await 2 0x80 0x9F
    else if leb 0xE1 b && leb b 0xEF
    then await 2 0x80 0xBF
    else if b == 0xF0
    then await 3 0x90 0xBF
    else if leb 0xF1 b && leb b 0xF3
    then await 3 0x80 0xBF
    else if b == 0xF4
    then await 3 0x80 0x8F
    else none

pub next_byte : Utf8State → ℕ → Option Utf8State
unfolding first_byte
next_byte s b =
    if s.pending == 0
    then first_byte b
    else if leb s.lowest b && leb b s.highest
    then await (s.pending - 1) 0x80 0xBF
    else none

accepts : List ℕ → Option Utf8State → Bool
accepts bs none = false
accepts [] (some s) = s.pending == 0
accepts (b ∷ bs) (some s) = accepts bs (next_byte s b)

unfoldable pub is_utf8 : List ℕ → Bool
unfolding accepts next_byte
is_utf8 bs = accepts bs (some between)

-- "é" and an overlong form of "/".
is_utf8_tests :
    ((is_utf8 (0x61 ∷ 0xC3 ∷ 0xA9 ∷ []) && is_utf8 (0xF0 ∷ 0x9F ∷ 0x98 ∷ 0x80 ∷ [])) ≡ true)
    × (is_utf8 (0xC0 ∷ 0xAF ∷ []) ≡ false)
    × (is_utf8 (0x61 ∷ 0xC3 ∷ []) ≡ false)
unfolding is_utf8
is_utf8_tests = (refl, refl, refl)
