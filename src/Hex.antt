-- ===== src/Hex.antt =====
-- The hex codec of hashes: `hex_encode` of src/server/actor.rs, and `hex_lower`, `hex_nibble` and
-- `parse_hex32` of src/server/handlers.rs. Texts are their bytes.
pub mod RoundTrip
mod Examples
use soroban_fork.Prelude.{
  ℕ, zero, suc, ◌+◌, ◌-◌, ◌*◌, ◌/◌, ◌%◌, Bool, ◌&&◌, Option, none, some, ◌>>=◌, List, [], ◌∷◌,
  if◌then◌else◌, ◌==◌, ltb, leb, length,
}
use soroban_fork.Xdr.{Bytes}

unfoldable pub hex_digit : ℕ → ℕ
hex_digit n = if ltb n 10 then n + b'0' else n - 10 + b'a'

-- format!("{b:02x}") for each byte
unfoldable pub hex_encode : Bytes → Bytes
hex_encode [] = []
hex_encode (b ∷ bs) = hex_digit (b / 16) ∷ hex_digit (b % 16) ∷ hex_encode bs

-- The same loop, over a hash.
unfoldable pub hex_lower : Bytes → Bytes
unfolding hex_encode
hex_lower hash = hex_encode hash

unfoldable pub hex_nibble : ℕ → Option ℕ
hex_nibble b =
    if leb b'0' b && leb b b'9'
    then some (b - b'0')
    else if leb b'a' b && leb b b'f'
    then some (b - b'a' + 10)
    else if leb b'A' b && leb b b'F'
    then some (b - b'A' + 10)
    else none

-- The loop over the pairs of characters. A pair's nibbles do not overlap: `hi << 4 | lo` is a sum.
unfoldable pub parse_pairs : Bytes → Option Bytes
parse_pairs (a ∷ b ∷ cs) = do
  hi ← hex_nibble a
  lo ← hex_nibble b
  rest ← parse_pairs cs
  some ((hi * 16 + lo) ∷ rest)
parse_pairs _ = some []

unfoldable pub parse_hex32 : Bytes → Option Bytes
parse_hex32 s = if length s == 64 then parse_pairs s else none
