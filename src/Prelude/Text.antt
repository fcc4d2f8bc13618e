-- ===== src/Prelude/Text.antt =====
-- Rust's `str` and `String` as byte strings, with `std::str::from_utf8` and byte comparison.
use Prim.Native.Nat.{ℕ}
use Prim.Native.Char.{code}
use Prim.Native.String.{String}
use mathlib.Core.Path.{◌≡◌}
use mathlib.Core.Logic.{◌↔◌}
use mathlib.Core.Bool.{Bool, true, false, ◌&&◌}
use mathlib.Core.Option.{Option, none, some}
use mathlib.Core.List.{List, [], ◌∷◌}
use native.Mathlib.Omega.{arith}
use soroban_fork.Prelude.Tests.{leb, ltb, ◌==◌, if◌then◌else◌}

-- The bytes of an ASCII text.
abbrev pub codes : String → List ℕ
codes String.[] = []
codes (String.◌∷◌ c s) = code c ∷ codes s

unfoldable pub bytes_eq : List ℕ → List ℕ → Bool
bytes_eq [] [] = true
bytes_eq (x ∷ xs) (y ∷ ys) = x == y && bytes_eq xs ys
bytes_eq _ _ = false

pub bytes_eq_iff : (xs ys : List ℕ) → (bytes_eq xs ys ≡ true) ↔ (xs ≡ ys)
unfolding bytes_eq
bytes_eq_iff [] [] = ground arith
bytes_eq_iff [] (y ∷ ys) = ground arith
bytes_eq_iff (x ∷ xs) [] = ground arith
bytes_eq_iff (x ∷ xs) (y ∷ ys) = ground (arith, bytes_eq_iff xs ys)

abbrev continuation : ℕ × ℕ
continuation = (0x80, 0xbf)

-- The ranges of the bytes that follow a first byte, `none` for a byte that starts no character.
utf8_lead : ℕ → Option (List (ℕ × ℕ))
utf8_lead b =
    if ltb b 0x80
    then some []
    else if ltb b 0xc2
    then none
    else if ltb b 0xe0
    then some (continuation ∷ [])
    else if b == 0xe0
    then some ((0xa0, 0xbf) ∷ continuation ∷ [])
    else if b == 0xed
    then some ((0x80, 0x9f) ∷ continuation ∷ [])
    else if ltb b 0xf0
    then some (continuation ∷ continuation ∷ [])
    else if b == 0xf0
    then some ((0x90, 0xbf) ∷ continuation ∷ continuation ∷ [])
    else if ltb b 0xf4
    then some (continuation ∷ continuation ∷ continuation ∷ [])
    else if b == 0xf4
    then some ((0x80, 0x8f) ∷ continuation ∷ continuation ∷ [])
    else none

utf8_run : List (ℕ × ℕ) → List ℕ → Bool
utf8_run [] [] = true
utf8_run (_ ∷ _) [] = false
utf8_run [] (b ∷ bs) = elim (utf8_lead b) [ none ↦ false | some ranges ↦ utf8_run ranges bs ]
utf8_run ((lo, hi) ∷ ranges) (b ∷ bs) =
    let rest = utf8_run ranges bs in if leb lo b && leb b hi then rest else false

-- std::str::from_utf8(bytes).ok()
unfoldable pub from_utf8 : List ℕ → Option (List ℕ)
unfolding utf8_run utf8_lead
from_utf8 bs = if utf8_run [] bs then some bs else none

pub eq_of_from_utf8 : {bs s : List ℕ} → from_utf8 bs ≡ some s → bs ≡ s
unfolding from_utf8
eq_of_from_utf8 h = ground arith
