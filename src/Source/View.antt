-- ===== src/Source/View.antt =====
-- What a source knows of a key, whatever the representation: the specification of its operations.
use soroban_fork.Prelude.{
  ℕ, ◌≡◌, refl, Bool, true, false, Option, none, some, arith, Option-cases, inl, inr,
}
use soroban_fork.Prelude.Assoc.{lookup}
use soroban_fork.Xdr.{Bytes}
use soroban_fork.Ledger.{LedgerKey, LedgerEntry, ledger_key_eq}
use soroban_fork.Prelude.Outcome.{Outcome, ok, panic}
use soroban_fork.Source.{Source, CachedBytes, Codec, Fetched, FetchMode, EntryWithLiveUntil}

pub data Known : Type 0 where
  unknown : Known
  absent : Known
  present : LedgerEntry → Option ℕ → Known
  corrupt : Known

unfoldable pub known : Codec → Option (Option CachedBytes) → Known
known codec none = unknown
known codec (some none) = absent
known codec (some (some (b, live_until))) = elim (codec.decode b) [
  | none ↦ corrupt
  | some e ↦ present e live_until
]

abbrev pub view : Codec → Source → LedgerKey → Known
view codec s k = known codec (lookup k s.cache)

-- What one source knows, the other knows too, and just the same.
pub record Extends (s t : Source) : Type 0 where
  pub kept :
      (j : LedgerKey) (c : Option CachedBytes)
      → lookup j s.cache ≡ some c
      → lookup j t.cache ≡ some c
  pub same_mode : t.fetch_mode ≡ s.fetch_mode

pub Extends-refl : (s : Source) → Extends s s
Extends-refl s = record { kept = λ j c h. h; same_mode = refl }

pub Extends-trans : {s t u : Source} → Extends s t → Extends t u → Extends s u
Extends-trans p q = record {
  kept = λ j c h. q.kept j c (p.kept j c h);
  same_mode = cc (p.same_mode, q.same_mode);
}

-- What an answer says about its key.
abbrev pub settled : Option EntryWithLiveUntil → Known
settled none = absent
settled (some (e, live_until)) = present e live_until

-- The answer that a read owes: what is known, and for an unknown key what the client says. A fetch
-- that fails is a panic in strict mode and an absent entry in lenient mode.
abbrev pub answer : FetchMode → Known → Fetched → Outcome (Option EntryWithLiveUntil)
answer mode unknown (Fetched.found e live_until) = ok (some (e, live_until))
answer mode unknown Fetched.absent = ok none
answer FetchMode.strict unknown Fetched.failed = panic
answer FetchMode.lenient unknown Fetched.failed = ok none
answer mode absent f = ok none
answer mode (present e live_until) f = ok (some (e, live_until))
answer mode corrupt f = panic

abbrev pub is_unknown : Known → Bool
is_unknown unknown = true
is_unknown _ = false

-- A present entry is cached by bytes that decode to it.
pub known-present :
    (codec : Codec) (o : Option (Option CachedBytes)) (e : LedgerEntry) (live_until : Option ℕ)
    → known codec o ≡ present e live_until
    → (b : Bytes) × (o ≡ some (some (b, live_until))) × (codec.decode b ≡ some e)
unfolding known
known-present codec none e l h = cc
known-present codec (some none) e l h = cc
known-present codec (some (some (b, l'))) e l h = elim (Option-cases (codec.decode b)) [
  | inl d ↦ ground arith
  | inr (e', d) ↦ (b, ground arith, ground arith)
]
