-- ===== src/Hex/Examples.antt =====
-- The theorems on the hex codec at a hash.
use soroban_fork.Prelude.{◌≡◌, ◌<◌, refl, some, [], ◌∷◌, All, arith, codes}
use soroban_fork.Xdr.{Bytes}
use soroban_fork.Hex.{parse_hex32, parse_pairs, hex_nibble, hex_lower}
use soroban_fork.Hex.RoundTrip.{parse_hex32-hex_lower}

abbrev hash : Bytes
hash =
    0x00 ∷ 0x1f ∷ 0xab ∷ 0xff ∷ 0x09 ∷ 0xa0 ∷ 0x90 ∷ 0x7e ∷ 0x00 ∷ 0x1f ∷ 0xab ∷ 0xff ∷ 0x09 ∷ 0xa0
    ∷ 0x90 ∷ 0x7e ∷ 0x00 ∷ 0x1f ∷ 0xab ∷ 0xff ∷ 0x09 ∷ 0xa0 ∷ 0x90 ∷ 0x7e ∷ 0x00 ∷ 0x1f ∷ 0xab
    ∷ 0xff ∷ 0x09 ∷ 0xa0 ∷ 0x90 ∷ 0x7e ∷ []

abbrev text : Bytes
text = codes "001FABff09A0907E001fabff09a0907e001fabff09a0907e001fabff09a0907e"

hash_bytes : All (λ b. b < 256) hash
hash_bytes = ground arith

text_parses : parse_hex32 text ≡ some hash
unfolding parse_hex32 parse_pairs hex_nibble
text_parses = refl

parse_hex32-hex_lower_example : parse_hex32 (hex_lower hash) ≡ some hash
parse_hex32-hex_lower_example = parse_hex32-hex_lower hash hash_bytes refl
