-- ===== src/Render/Examples.antt =====
-- Rendered values, from the tests of src/trace.rs, and a number read back.
use soroban_fork.Prelude.{◌≡◌, refl, true, some, [], ◌∷◌, codes, arith, from_utf8}
use soroban_fork.Prelude.Int.{negsuc}
use soroban_fork.Prelude.Decimal.{decimal, signed_decimal, read_integer}
use soroban_fork.Xdr.{ScVal, item, no_items, entry, no_entries}
use soroban_fork.Hex.{hex_encode, hex_digit}
use soroban_fork.Handlers.Token.{i128_to_scval}
use soroban_fork.Render.{
  Texts, render_scval, render_vec, render_vec_later, render_map, render_map_later, render_bytes,
  i128_from_pieces, u128_from_pieces, text_or,
}
use soroban_fork.Render.Numbers.{read_integer-render_scval}

abbrev texts : Texts
texts = record {
  contract_strkey = λ id. codes "C";
  account_strkey = λ key. codes "G";
  debug = λ v. codes "?";
  debug_address = λ a. codes "?";
}

read_integer-render_scval_example :
    read_integer (render_scval texts (i128_to_scval (negsuc 999999999999)))
    ≡ some (negsuc 999999999999)
read_integer-render_scval_example =
    read_integer-render_scval texts (negsuc 999999999999) (omega arith)

negative_i128 : render_scval texts (i128_to_scval (negsuc 999999999999)) ≡ codes "-1000000000000"
unfolding render_scval i128_to_scval i128_from_pieces signed_decimal decimal
negative_i128 = refl

largest_u128 :
    render_scval texts (ScVal.u128 18446744073709551615 18446744073709551615)
    ≡ codes "340282366920938463463374607431768211455"
unfolding render_scval u128_from_pieces decimal
largest_u128 = refl

short_bytes : render_scval texts (ScVal.bytes (0xde ∷ 0xad ∷ 0xbe ∷ 0xef ∷ [])) ≡ codes "0xdeadbeef"
unfolding render_scval render_bytes hex_encode hex_digit
short_bytes = refl

nested :
    render_scval texts (
      ScVal.vec (
        item (ScVal.bool true) (
          item
            (ScVal.map (entry (ScVal.symbol (codes "k")) (ScVal.string (codes "v")) no_entries))
            no_items)))
    ≡ codes "[true, {k: \"v\"}]"
unfolding render_scval render_vec render_vec_later render_map render_map_later text_or from_utf8
nested = refl
