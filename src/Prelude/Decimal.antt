-- ===== src/Prelude/Decimal.antt =====
-- Rust's decimal rendering of integers, `format!("{n}")`, and the reading of such texts.
use Prim.Native.Nat.{ℕ, zero, suc, ◌+◌, ◌-◌, ◌*◌, ◌/◌, ◌%◌, ◌^◌, ◌≤◌, ◌<◌}
use native.Mathlib.Nat.{pow-suc}
use mathlib.Core.Path.{◌≡◌, ap}
use mathlib.Core.Bool.{◌&&◌}
use mathlib.Core.Option.{Option, none, some}
use mathlib.Core.List.{List, [], ◌∷◌, ◌++◌}
use native.Mathlib.Omega.{arith}
use native.Mathlib.Decide.{dec_lt}
use soroban_fork.Prelude.Tests.{ltb, leb, ◌==◌, if◌then◌else◌}
use soroban_fork.Prelude.Int.{ℤ, pos, negsuc}

-- The fuel counts the digits: a u32 has at most ten.
unfoldable pub decimal : ℕ → ℕ → List ℕ
decimal zero n = []
decimal (suc fuel) n =
    let higher = decimal fuel (n / 10) in
    if ltb n 10 then (n + b'0') ∷ [] else higher ++ (n % 10 + b'0') ∷ []

-- The same for a signed integer.
unfoldable pub signed_decimal : ℕ → ℤ → List ℕ
signed_decimal fuel (pos n) = decimal fuel n
signed_decimal fuel (negsuc n) = b'-' ∷ decimal fuel (suc n)

-- A text of digits, read from the left onto what was read before it.
read_digits : ℕ → List ℕ → Option ℕ
read_digits acc [] = some acc
read_digits acc (c ∷ cs) =
    let rest = read_digits (acc * 10 + (c - b'0')) cs in
    if leb b'0' c && leb c b'9' then rest else none

read_natural : List ℕ → Option ℕ
read_natural [] = none
read_natural (c ∷ cs) = read_digits 0 (c ∷ cs)

negated : Option ℕ → Option ℤ
negated none = none
negated (some zero) = some (pos 0)
negated (some (suc n)) = some (negsuc n)

not_negated : Option ℕ → Option ℤ
not_negated none = none
not_negated (some n) = some (pos n)

-- An integer's text: digits, with a minus sign before those of a negative one.
unfoldable pub read_integer : List ℕ → Option ℤ
unfolding read_natural read_digits negated not_negated
read_integer [] = none
read_integer (c ∷ cs) =
    if c == b'-' then negated (read_natural cs) else not_negated (read_natural (c ∷ cs))

read_digits-append :
    (acc : ℕ) (xs : List ℕ) (c m : ℕ)
    → read_digits acc xs ≡ some m
    → c < 10
    → read_digits acc (xs ++ (c + b'0') ∷ []) ≡ some (m * 10 + c)
unfolding read_digits
read_digits-append acc [] c m h lt = ground arith
read_digits-append acc (x ∷ xs) c m h lt =
    ground (arith, read_digits-append (acc * 10 + (x - b'0')) xs c m)

read_digits-decimal : (fuel n : ℕ) → n < 10 ^ fuel → read_digits 0 (decimal fuel n) ≡ some n
unfolding read_digits decimal
read_digits-decimal zero n h = ap some (omega arith)
read_digits-decimal (suc fuel) n h =
    let higher : n / 10 < 10 ^ fuel = omega (arith, pow-suc 10 fuel) in
    ground (
      arith,
      read_digits-decimal fuel (n / 10) higher,
      read_digits-append 0 (decimal fuel (n / 10)) (n % 10) (n / 10),
    )

-- A rendering starts with a digit.
decimal_head : (fuel n : ℕ) → (c : ℕ) × (cs : List ℕ) × (decimal (suc fuel) n ≡ c ∷ cs) × (b'0' ≤ c)
unfolding decimal
decimal_head zero n = elim (dec_lt n 10) [
  | yes small ↦ (n + b'0', [], ground arith, ground arith)
  | no big ↦ (n % 10 + b'0', [], ground arith, ground arith)
]
decimal_head (suc fuel) n = elim (dec_lt n 10) [
  | yes small ↦ (n + b'0', [], ground arith, ground arith)
  | no big ↦
      let (c, cs, e, h) = decimal_head fuel (n / 10) in
      (c, cs ++ (n % 10 + b'0') ∷ [], ground (arith, e), h)
]

read_natural-decimal :
    (fuel n : ℕ) → n < 10 ^ suc fuel → read_natural (decimal (suc fuel) n) ≡ some n
unfolding read_natural
read_natural-decimal fuel n h =
    let (c, cs, e, _) = decimal_head fuel n in ground (arith, e, read_digits-decimal (suc fuel) n h)

-- The absolute value of an integer has at most so many digits.
abbrev pub HasDigits : ℕ → ℤ → Type 0
HasDigits fuel (pos n) = n < 10 ^ fuel
HasDigits fuel (negsuc n) = suc n < 10 ^ fuel

-- An integer is read back from its text.
pub read_integer-signed_decimal :
    (fuel : ℕ) (z : ℤ)
    → HasDigits (suc fuel) z
    → read_integer (signed_decimal (suc fuel) z) ≡ some z
unfolding read_integer signed_decimal
read_integer-signed_decimal fuel (pos n) h =
    let (c, cs, e, digit) = decimal_head fuel n in ground (arith, e, read_natural-decimal fuel n h)
read_integer-signed_decimal fuel (negsuc n) h = ground (arith, read_natural-decimal fuel (suc n) h)
