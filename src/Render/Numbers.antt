-- ===== src/Render/Numbers.antt =====
-- Rendered integers are read back.
use soroban_fork.Prelude.{◌≡◌, ◌∙◌, ap, some, arith}
use soroban_fork.Prelude.Int.{ℤ, pos, negsuc}
use soroban_fork.Prelude.Decimal.{
  read_integer, signed_decimal, HasDigits, read_integer-signed_decimal,
}
use soroban_fork.Render.{Texts, render_scval, i128_from_pieces}
use soroban_fork.Handlers.Token.{i128_to_scval}
use soroban_fork.Handlers.Minted.{IsI128}

IsI128-HasDigits : (z : ℤ) → IsI128 z → HasDigits 39 z
IsI128-HasDigits (pos n) h = omega (arith, h)
IsI128-HasDigits (negsuc n) h = omega (arith, h)

render_scval-i128_to_scval :
    (texts : Texts) (z : ℤ) → render_scval texts (i128_to_scval z) ≡ signed_decimal 39 z
unfolding render_scval i128_to_scval i128_from_pieces
render_scval-i128_to_scval texts (pos n) = ap (λ m. signed_decimal 39 (pos m)) (omega arith)
render_scval-i128_to_scval texts (negsuc n) = ap (λ m. signed_decimal 39 (negsuc m)) (omega arith)

-- An i128 that is put into a value, in its two halves, and then rendered can be read back from its text.
pub read_integer-render_scval :
    (texts : Texts) (z : ℤ)
    → IsI128 z
    → read_integer (render_scval texts (i128_to_scval z)) ≡ some z
read_integer-render_scval texts z h =
    ap read_integer (render_scval-i128_to_scval texts z)
    ∙ read_integer-signed_decimal 38 z (IsI128-HasDigits z h)
