-- ===== src/Rpc/Snippet.antt =====
-- The snippets of response bodies in src/rpc.rs. Texts are lists of characters here.
use soroban_fork.Prelude.{
  ℕ, zero, suc, ◌+◌, ◌≤◌, ◌≡◌, Option, none, some, List, [], ◌∷◌, ◌++◌, take, length, leb,
  if◌then◌else◌, codes, refl, arith, length-append,
}

-- A character by its code point.
abbrev pub Chars : Type 0
Chars = List ℕ

abbrev pub error_body_truncate_bytes : ℕ
error_body_truncate_bytes = 256

unfoldable pub truncate_chars : Chars → ℕ → Chars
truncate_chars s max_chars =
    if leb (length s) max_chars then s else take max_chars s ++ (0x2026 ∷ [])

unfoldable pub snippet_of_trimmed : Chars → Chars
snippet_of_trimmed [] = codes "<empty body>"
snippet_of_trimmed (c ∷ s) = truncate_chars (c ∷ s) error_body_truncate_bytes

-- `trim` is the one of `str`; there is no body when it cannot be read.
unfoldable pub response_body_snippet : (Chars → Chars) → Option Chars → Chars
response_body_snippet trim none = codes "<no body>"
response_body_snippet trim (some body) = snippet_of_trimmed (trim body)

length-take : (n : ℕ) (s : Chars) → n ≤ length s → length (take n s) ≡ n
length-take zero s h = refl
length-take (suc n) [] h = omega (arith, h)
length-take (suc n) (c ∷ s) h = omega (arith, length-take n s (omega arith))

truncate_chars_bounds :
    (s : Chars) (max_chars : ℕ) → length (truncate_chars s max_chars) ≤ max_chars + 1
unfolding truncate_chars
truncate_chars_bounds s max_chars =
    ground (arith, length-take max_chars s, length-append (take max_chars s) (0x2026 ∷ []))

bounded : (s : Chars) → length (snippet_of_trimmed s) ≤ 257
unfolding snippet_of_trimmed
bounded [] = omega arith
bounded (c ∷ s) = truncate_chars_bounds (c ∷ s) 256

-- A snippet has at most 257 characters, whatever the body.
pub response_body_snippet_bounds :
    (trim : Chars → Chars) (body : Option Chars) → length (response_body_snippet trim body) ≤ 257
unfolding response_body_snippet
response_body_snippet_bounds trim none = omega arith
response_body_snippet_bounds trim (some body) = bounded (trim body)
