-- ===== src/Prelude/Bits.antt =====
-- The exclusive or of numbers, by their binary digits.
use Prim.Native.Nat.{
  ℕ, zero, suc, ◌+◌, ◌*◌, ◌/◌, ◌%◌, ◌^◌, ◌≤◌, ◌<◌, bit_xor, digits, differ, bit_xor-bitwise,
}
use mathlib.Core.Path.{◌≡◌, refl}
use native.Mathlib.Omega.{arith}
use native.Mathlib.Nat.{pow-suc}

abbrev xor_digits : ℕ → ℕ → ℕ → ℕ
xor_digits fuel a b = digits (λ d. d) differ fuel a b

-- Any fuel from the left number on gives the same digits.
xor_digits-eq : (a k j b : ℕ) → a ≤ k → a ≤ j → xor_digits k a b ≡ xor_digits j a b
xor_digits-eq zero zero zero b p q = refl
xor_digits-eq zero zero (suc j) b p q = refl
xor_digits-eq zero (suc k) zero b p q = refl
xor_digits-eq zero (suc k) (suc j) b p q = refl
xor_digits-eq (suc a) zero j b p q = absurd (omega arith)
xor_digits-eq (suc a) (suc k) zero b p q = absurd (omega arith)
xor_digits-eq (suc a) (suc k) (suc j) b p q =
    let higher = xor_digits-eq (suc a / 2) k j (b / 2) (omega (arith, p)) (omega (arith, q)) in
    omega (arith, higher)

xor-zero_left : (b : ℕ) → bit_xor 0 b ≡ b
xor-zero_left b = bit_xor-bitwise 0 b

-- The lowest digit, and the others.
xor_lowest : (a b : ℕ) → bit_xor a b ≡ bit_xor (a / 2) (b / 2) * 2 + differ (a % 2) (b % 2)
xor_lowest zero b = omega (arith, xor-zero_left b, xor-zero_left (b / 2))
xor_lowest (suc a) b =
    let by_digits : bit_xor (suc a) b ≡ xor_digits (suc a) (suc a) b = bit_xor-bitwise (suc a) b in
    let others : bit_xor (suc a / 2) (b / 2) ≡ xor_digits (suc a / 2) (suc a / 2) (b / 2) =
      bit_xor-bitwise (suc a / 2) (b / 2) in
    omega (
      arith,
      by_digits,
      others,
      xor_digits-eq (suc a / 2) a (suc a / 2) (b / 2) (omega arith) (omega arith),
    )

-- What `omega` needs of a digit of the result.
differ_bounds :
    (c d : ℕ)
    → c < 2
    → d < 2
    → (differ c d < 2) × (differ c d ≤ c + d) × (c ≤ d + differ c d) × (d ≤ c + differ c d)
differ_bounds zero zero p q = omega arith
differ_bounds zero (suc zero) p q = omega arith
differ_bounds (suc zero) zero p q = omega arith
differ_bounds (suc zero) (suc zero) p q = omega arith
differ_bounds zero (suc (suc d)) p q = absurd (omega arith)
differ_bounds (suc zero) (suc (suc d)) p q = absurd (omega arith)
differ_bounds (suc (suc c)) d p q = absurd (omega arith)

-- The fuel bounds the left number.
equal_fueled : (fuel a b : ℕ) → a ≤ fuel → bit_xor a b ≡ 0 → a ≡ b
equal_fueled fuel zero b p h = omega (arith, xor-zero_left b)
equal_fueled zero (suc a) b p h = absurd (omega arith)
equal_fueled (suc fuel) (suc a) b p h =
    let lowest = xor_lowest (suc a) b in
    let higher = equal_fueled fuel (suc a / 2) (b / 2) (omega arith) (omega (arith, lowest)) in
    omega (arith, lowest, higher, differ_bounds (suc a % 2) (b % 2) (omega arith) (omega arith))

-- Only equal numbers cancel.
pub eq_of_bit_xor : (a b : ℕ) → bit_xor a b ≡ 0 → a ≡ b
eq_of_bit_xor a b h = equal_fueled a a b (omega arith) h

-- The result is no wider than its operands.
pub bit_xor-lt : (width a b : ℕ) → a < 2 ^ width → b < 2 ^ width → bit_xor a b < 2 ^ width
bit_xor-lt zero a b p q = let e : a ≡ 0 = omega arith in rw e (omega (arith, xor-zero_left b))
bit_xor-lt (suc width) a b p q = omega (
  arith,
  pow-suc 2 width,
  xor_lowest a b,
  bit_xor-lt width (a / 2) (b / 2) (omega (arith, pow-suc 2 width))
      (omega (arith, pow-suc 2 width)),
  differ_bounds (a % 2) (b % 2) (omega arith) (omega arith),
)
