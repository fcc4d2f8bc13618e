-- ===== src/Hex/RoundTrip.antt =====
-- `hex_lower` and `parse_hex32` against each other.
use soroban_fork.Prelude.{
  ℕ, zero, suc, Bool-cases, ◌+◌, ◌*◌, ◌/◌, ◌%◌, ◌<◌, ◌≡◌, refl, some, [], ◌∷◌, map, arith,
  if◌then◌else◌, ◌==◌, leb, length, ◌&&◌, All, Option-cases, inl, inr,
}
use soroban_fork.Xdr.{Bytes}
use soroban_fork.Hex.{hex_digit, hex_lower, hex_encode, hex_nibble, parse_pairs, parse_hex32}

hex_nibble-hex_digit : (n : ℕ) → n < 16 → hex_nibble (hex_digit n) ≡ some n
unfolding hex_nibble hex_digit
hex_nibble-hex_digit n h = ground arith

parse_pairs-hex_encode :
    (bs : Bytes) → All (λ b. b < 256) bs → parse_pairs (hex_encode bs) ≡ some bs
unfolding hex_encode parse_pairs
parse_pairs-hex_encode [] h = refl
parse_pairs-hex_encode (b ∷ bs) h =
    let high : hex_nibble (hex_digit (b / 16)) ≡ some (b / 16) =
      hex_nibble-hex_digit (b / 16) (omega arith) in
    let low : hex_nibble (hex_digit (b % 16)) ≡ some (b % 16) =
      hex_nibble-hex_digit (b % 16) (omega arith) in
    let whole : b / 16 * 16 + b % 16 ≡ b = omega arith in
    simp (high, low, parse_pairs-hex_encode bs h.1, whole)

length-hex_encode : (bs : Bytes) → length (hex_encode bs) ≡ 2 * length bs
unfolding hex_encode
length-hex_encode [] = omega arith
length-hex_encode (b ∷ bs) = omega (arith, length-hex_encode bs)

-- A 32-byte hash, spelled in lower-case hex, parses back to that hash.
pub parse_hex32-hex_lower :
    (hash : Bytes)
    → All (λ b. b < 256) hash
    → length hash ≡ 32
    → parse_hex32 (hex_lower hash) ≡ some hash
unfolding parse_hex32 hex_lower
parse_hex32-hex_lower hash h e =
    let double : length (hex_encode hash) ≡ 64 = omega (arith, length-hex_encode hash) in
    rw double (parse_pairs-hex_encode hash h)

-- Lower case of an ASCII letter.
abbrev pub lower : ℕ → ℕ
lower c = if leb b'A' c && leb c b'F' then c + 32 else c

hex_digit-hex_nibble : (c : ℕ) {n : ℕ} → hex_nibble c ≡ some n → (hex_digit n ≡ lower c) × (n < 16)
unfolding hex_nibble hex_digit
hex_digit-hex_nibble c h = ground arith

-- The pairs that parse are the spelling of the bytes.
parse_pairs_sound :
    (k : ℕ) (s hash : Bytes)
    → length s ≡ 2 * k
    → parse_pairs s ≡ some hash
    → (hex_encode hash ≡ map lower s) × (length hash ≡ k) × All (λ b. b < 256) hash
unfolding parse_pairs hex_encode
parse_pairs_sound k [] [] e h = (refl, omega arith, tt)
parse_pairs_sound k [] (x ∷ xs) e h = cc
parse_pairs_sound k (a ∷ []) hash e h = absurd (omega arith)
parse_pairs_sound zero (a ∷ b ∷ cs) hash e h = absurd (omega arith)
parse_pairs_sound (suc k) (a ∷ b ∷ cs) hash e h = elim (Option-cases (hex_nibble a)) [
  | inl p ↦ absurd (ground arith)
  | inr (hi, p) ↦ elim (Option-cases (hex_nibble b)) [
    | inl q ↦ absurd (ground arith)
    | inr (lo, q) ↦ elim (Option-cases (parse_pairs cs)) [
      | inl r ↦ absurd (ground arith)
      | inr (rest, r) ↦
          let same : hash ≡ (hi * 16 + lo) ∷ rest = ground arith in
          let high = hex_digit-hex_nibble a p in
          let low = hex_digit-hex_nibble b q in
          let more = parse_pairs_sound k cs rest (omega arith) r in
          let upper : (hi * 16 + lo) / 16 ≡ hi = omega arith in
          let under : (hi * 16 + lo) % 16 ≡ lo = omega arith in
          rw same (simp (upper, under, high.0, low.0, more.0), omega arith, (omega arith, more.2))
    ]
  ]
]

-- Whatever parses has 64 characters, all hex digits, and gives 32 bytes whose spelling is the text
-- in lower case: two texts name one hash only if they differ in case alone.
pub hex_lower-parse_hex32 :
    (s hash : Bytes)
    → parse_hex32 s ≡ some hash
    → (hex_lower hash ≡ map lower s) × (length hash ≡ 32) × All (λ b. b < 256) hash
unfolding parse_hex32 hex_lower
hex_lower-parse_hex32 s hash h = elim (Bool-cases (length s == 64)) [
  | inl e ↦ parse_pairs_sound 32 s hash (ground arith) (ground arith)
  | inr e ↦ absurd (ground arith)
]
