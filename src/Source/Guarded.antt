-- ===== src/Source/Guarded.antt =====
-- Test data: a codec of any two functions, which encodes only what decodes to itself.
use soroban_fork.Prelude.{
  ◌≡◌, refl, ap, subst, Bool, true, false, Bool-cases, inl, inr, Option, none, some, ℕ_discrete,
}
use soroban_fork.Prelude.Assoc.{decided, decided_iff}
use soroban_fork.Xdr.{Bytes, ScVal-discrete}
use soroban_fork.Ledger.{LedgerKey, LedgerEntry, LedgerEntryData}
use soroban_fork.Source.{Codec, IsCodec}

pub LedgerEntry-discrete : Discrete LedgerEntry
LedgerEntry-discrete = hlevel (ScVal-discrete, ℕ_discrete)

abbrev pub guarded : Bool → Bytes → Option Bytes
guarded true b = some b
guarded false b = none

abbrev pub same : Option LedgerEntry → LedgerEntry → Bool
same none e = false
same (some d) e = decided (LedgerEntry-discrete d e)

same_iff : (o : Option LedgerEntry) (e : LedgerEntry) → same o e ≡ true → o ≡ some e
same_iff none e h = cc h
same_iff (some d) e h = ap (λ x. some x) ((decided_iff (LedgerEntry-discrete d e)).0 h)

module _ (to_bytes : LedgerEntryData → Bytes) (of_bytes : Bytes → Option LedgerEntry) where
  abbrev pub guarded_codec : Codec
  guarded_codec = record {
    encode = λ e. guarded (same (of_bytes (to_bytes e.body)) e) (to_bytes e.body);
    decode = of_bytes;
    decode_key = λ b. some (LedgerKey.account b);
  }

  pub guarded_codec-IsCodec : IsCodec guarded_codec
  guarded_codec-IsCodec e b h = elim (Bool-cases (same (of_bytes (to_bytes e.body)) e)) [
    | inl t ↦
        let bytes : some (to_bytes e.body) ≡ some b = rw t at h in
        subst (λ o. (elim o [ some x ↦ of_bytes x | none ↦ none ]) ≡ some e) bytes
          (same_iff (of_bytes (to_bytes e.body)) e t)
    | inr f ↦ cc (h, f)
  ]

  pub encodes_to_itself :
      (e : LedgerEntry)
      → of_bytes (to_bytes e.body) ≡ some e
      → guarded_codec.encode e ≡ some (to_bytes e.body)
  encodes_to_itself e h = rw (h, (decided_iff (LedgerEntry-discrete e e)).1 refl) refl
