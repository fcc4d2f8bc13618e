-- ===== src/Render.antt =====
-- The renderers of src/trace.rs that traces and authorization trees share: values and addresses as text.
pub mod Numbers
pub mod Lines
mod Examples
use soroban_fork.Prelude.{
  ℕ, zero, suc, ◌+◌, ◌-◌, ◌*◌, ◌^◌, Bool, true, false, Option, none, some, List, [], ◌∷◌, ◌++◌,
  codes, ltb, leb, if◌then◌else◌, length, take, drop, from_utf8,
}
use soroban_fork.Prelude.Int.{ℤ, pos, negsuc}
use soroban_fork.Prelude.Decimal.{decimal, signed_decimal}
use soroban_fork.Xdr.{Bytes, ScAddress, ScVal, ScVec, no_items, item, ScMap, no_entries, entry}
use soroban_fork.Hex.{hex_encode}

-- The texts that other crates make: the strkeys of contracts and accounts, and `{:?}` of the forms that have no
-- rendering of their own.
pub record Texts : Type 0 where
  pub contract_strkey : Bytes → Bytes
  pub account_strkey : Bytes → Bytes
  pub debug : ScVal → Bytes
  pub debug_address : ScAddress → Bytes

-- '…' and '←' in UTF-8
abbrev pub ellipsis : Bytes
ellipsis = 0xe2 ∷ 0x80 ∷ 0xa6 ∷ []

abbrev pub left_arrow : Bytes
left_arrow = 0xe2 ∷ 0x86 ∷ 0x90 ∷ []

unfoldable pub abbreviate_strkey : Bytes → Bytes
abbreviate_strkey s =
    if ltb 12 (length s) then take 4 s ++ (ellipsis ++ drop (length s - 4) s) else s

unfoldable pub u128_from_pieces : ℕ → ℕ → ℕ
u128_from_pieces hi lo = hi * 2 ^ 64 + lo

-- `((hi as i128) << 64) | (lo as i128)`
unfoldable pub i128_from_pieces : ℤ → ℕ → ℤ
i128_from_pieces (pos hi) lo = pos (hi * 2 ^ 64 + lo)
i128_from_pieces (negsuc hi) lo = negsuc (hi * 2 ^ 64 + (2 ^ 64 - 1 - lo))

-- A preview of eight bytes when there are more than sixteen.
unfoldable pub render_bytes : Bytes → Bytes
render_bytes bs =
    if leb (length bs) 16
    then codes "0x" ++ hex_encode bs
    else codes "0x"
      ++ (hex_encode (take 8 bs)
          ++ (ellipsis ++ (codes "(" ++ (decimal 20 (length bs) ++ codes " bytes)"))))

-- A text of UTF-8 between quotes, or what stands for one that is not UTF-8.
unfoldable pub text_or : Bytes → Bytes → Bytes → Bytes
text_or quote fallback s = elim (from_utf8 s) [
  | some text ↦ quote ++ (text ++ quote)
  | none ↦ fallback
]

module _ (texts : Texts) where
  unfoldable pub render_address : ScAddress → Bytes
  render_address (ScAddress.account a) = abbreviate_strkey (texts.account_strkey a)
  render_address (ScAddress.contract h) = abbreviate_strkey (texts.contract_strkey h)
  render_address (ScAddress.other_address n) = texts.debug_address (ScAddress.other_address n)

  -- The `_later` functions render the items after the first one.
  unfoldable mutual
    pub render_scval : ScVal → Bytes
    render_scval ScVal.void = codes "()"
    render_scval (ScVal.bool b) = if b then codes "true" else codes "false"
    render_scval (ScVal.u32 n) = decimal 10 n
    render_scval (ScVal.i32 n) = signed_decimal 10 n
    render_scval (ScVal.u64 n) = decimal 20 n
    render_scval (ScVal.i64 n) = signed_decimal 19 n
    render_scval (ScVal.u128 hi lo) = decimal 39 (u128_from_pieces hi lo)
    render_scval (ScVal.i128 hi lo) = signed_decimal 39 (i128_from_pieces hi lo)
    render_scval (ScVal.symbol s) = text_or [] (codes "Symbol(<non-utf8>)") s
    render_scval (ScVal.string s) = text_or (codes "\"") (codes "String(<non-utf8>)") s
    render_scval (ScVal.bytes b) = render_bytes b
    render_scval (ScVal.address a) = render_address a
    render_scval ScVal.vec_none = codes "[]"
    render_scval (ScVal.vec items) = codes "[" ++ (render_vec items ++ codes "]")
    render_scval ScVal.map_none = codes "{}"
    render_scval (ScVal.map entries) = codes "{" ++ (render_map entries ++ codes "}")
    render_scval ScVal.ledger_key_contract_instance = texts.debug ScVal.ledger_key_contract_instance
    render_scval (ScVal.contract_instance e s) = texts.debug (ScVal.contract_instance e s)
    render_scval (ScVal.other n) = texts.debug (ScVal.other n)

    pub render_vec : ScVec → Bytes
    render_vec no_items = []
    render_vec (item v vs) = render_scval v ++ render_vec_later vs

    pub render_vec_later : ScVec → Bytes
    render_vec_later no_items = []
    render_vec_later (item v vs) = codes ", " ++ (render_scval v ++ render_vec_later vs)

    pub render_map : ScMap → Bytes
    render_map no_entries = []
    render_map (entry k v es) =
        render_scval k ++ (codes ": " ++ (render_scval v ++ render_map_later es))

    pub render_map_later : ScMap → Bytes
    render_map_later no_entries = []
    render_map_later (entry k v es) =
        codes ", " ++ (render_scval k ++ (codes ": " ++ (render_scval v ++ render_map_later es)))

  -- The loop over the arguments of a call.
  unfoldable pub render_args_later : List ScVal → Bytes
  render_args_later [] = []
  render_args_later (v ∷ vs) = codes ", " ++ (render_scval v ++ render_args_later vs)

  unfoldable pub render_args : List ScVal → Bytes
  unfolding render_args_later
  render_args [] = []
  render_args (v ∷ vs) = render_scval v ++ render_args_later vs

-- `INDENT.repeat(depth)`
unfoldable pub indent : ℕ → Bytes
indent zero = []
indent (suc depth) = codes "  " ++ indent depth

abbrev pub line_end : Bytes
line_end = codes "\n"
