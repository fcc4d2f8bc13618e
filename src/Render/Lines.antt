-- ===== src/Render/Lines.antt =====
-- The number of lines of a text.
use soroban_fork.Prelude.{
  ℕ, zero, suc, ◌+◌, ◌/◌, ◌%◌, [], ◌∷◌, ◌++◌, ◌≡◌, ◌==◌, if◌then◌else◌, arith,
}
use soroban_fork.Prelude.Int.{ℤ, pos, negsuc}
use soroban_fork.Prelude.Decimal.{decimal, signed_decimal}
use soroban_fork.Xdr.{Bytes}
use soroban_fork.Render.{indent}

unfoldable pub line_count : Bytes → ℕ
line_count [] = 0
line_count (b ∷ bs) = (if b == b'\n' then 1 else 0) + line_count bs

pub line_count-append : (xs ys : Bytes) → line_count (xs ++ ys) ≡ line_count xs + line_count ys
unfolding line_count
line_count-append [] ys = omega arith
line_count-append (x ∷ xs) ys = omega (arith, line_count-append xs ys)

pub line_count-indent : (depth : ℕ) → line_count (indent depth) ≡ 0
unfolding line_count indent
line_count-indent zero = omega arith
line_count-indent (suc depth) = ground (arith, line_count-indent depth)

pub line_count-decimal : (fuel n : ℕ) → line_count (decimal fuel n) ≡ 0
unfolding line_count decimal
line_count-decimal zero n = omega arith
line_count-decimal (suc fuel) n = ground (
  arith,
  line_count-decimal fuel (n / 10),
  line_count-append (decimal fuel (n / 10)) ((n % 10 + b'0') ∷ []),
)

pub line_count-signed_decimal : (fuel : ℕ) (z : ℤ) → line_count (signed_decimal fuel z) ≡ 0
unfolding line_count signed_decimal
line_count-signed_decimal fuel (pos n) = line_count-decimal fuel n
line_count-signed_decimal fuel (negsuc n) = ground (arith, line_count-decimal fuel (suc n))
