-- ===== src/Source/Refines.antt =====
-- `get` against its specification on the view of a source.
use soroban_fork.Prelude.{
  ℕ, ◌≡◌, ◌∙◌, sym, ap, refl, false, Option, none, some, inl, inr, arith, if◌then◌else◌,
  Option-cases, Bool-cases,
}
use soroban_fork.Prelude.Outcome.{ok}
use soroban_fork.Prelude.Assoc.{lookup, insert, lookup-insert}
use soroban_fork.Prelude.Word.{wrapping_add_u32}
use soroban_fork.Ledger.{LedgerKey, LedgerEntry, ledger_key_eq, key_eq, key_eq_iff}
use soroban_fork.Source.{
  Source, CachedBytes, Codec, IsCodec, Client, Fetched, EntryWithLiveUntil, FetchMode, get,
  fetch_result, to_cached, encode_entry, decode_entry,
}
use soroban_fork.Source.View.{
  unknown, present, known, known-present, view, settled, answer, is_unknown,
}
use soroban_fork.Source.Reads.{get-hit, get-miss}

module _ (codec : Codec) (client : Client) where
  known-to_cached :
      (r : Option EntryWithLiveUntil) (c : Option CachedBytes)
      → IsCodec codec
      → to_cached codec r ≡ ok c
      → known codec (some c) ≡ settled r
  unfolding to_cached encode_entry known
  known-to_cached none c laws h = ground arith
  known-to_cached (some (e, l)) none laws h = ground arith
  known-to_cached (some (e, l)) (some (b, l')) laws h = ground (arith, laws e b)

  fetch_result-eq-answer :
      (mode : FetchMode) (f : Fetched) → fetch_result mode f ≡ answer mode unknown f
  unfolding fetch_result
  fetch_result-eq-answer mode (Fetched.found e l) = refl
  fetch_result-eq-answer mode Fetched.absent = refl
  fetch_result-eq-answer FetchMode.strict Fetched.failed = refl
  fetch_result-eq-answer FetchMode.lenient Fetched.failed = refl

  answer-settled :
      (mode : FetchMode) (r : Option EntryWithLiveUntil) (f : Fetched)
      → answer mode (settled r) f ≡ ok r
  answer-settled mode none f = refl
  answer-settled mode (some (e, l)) f = refl

  is_unknown-settled : (r : Option EntryWithLiveUntil) → is_unknown (settled r) ≡ false
  is_unknown-settled none = refl
  is_unknown-settled (some (e, l)) = refl

  hit-settled :
      (s : Source) (k : LedgerKey) (c : Option CachedBytes) {r : Option EntryWithLiveUntil}
      {t : Source}
      → lookup k s.cache ≡ some c
      → get codec client s k ≡ ok (r, t)
      → view codec s k ≡ settled r
  unfolding get known decode_entry
  hit-settled s k none e h = ground arith
  hit-settled s k (some (b, l)) e h = ground arith

  -- The specification of a read that returned `r`.
  pub record GetSpec (s : Source) (k : LedgerKey) (r : Option EntryWithLiveUntil) (t : Source)
      : Type 0 where
    pub answered :
        answer s.fetch_mode (view codec s k) (client (wrapping_add_u32 s.fetches 1) k) ≡ ok r
    pub learned :
        (j : LedgerKey) → view codec t j ≡ (if key_eq k j then settled r else view codec s j)
    pub counted :
        t.fetches
        ≡ (if is_unknown (view codec s k) then wrapping_add_u32 s.fetches 1 else s.fetches)
    pub mode_kept : t.fetch_mode ≡ s.fetch_mode

  hit-GetSpec :
      (s : Source) (k : LedgerKey) {r : Option EntryWithLiveUntil}
      → view codec s k ≡ settled r
      → GetSpec s k r s
  hit-GetSpec s k {r} e = record {
    answered = rw e (answer-settled s.fetch_mode r _);
    learned = λ j. elim (Bool-cases (key_eq k j)) [
      | inl same ↦ rw same (ap (view codec s) (sym ((key_eq_iff k j).0 same)) ∙ e)
      | inr other ↦ rw other
    ];
    counted = rw (e, is_unknown-settled r);
    mode_kept = refl;
  }

  view-unknown : (s : Source) (k : LedgerKey) → lookup k s.cache ≡ none → view codec s k ≡ unknown
  unfolding known
  view-unknown s k e = rw e

  miss-GetSpec :
      (s : Source) (k : LedgerKey) (c : Option CachedBytes) {r : Option EntryWithLiveUntil}
      → IsCodec codec
      → lookup k s.cache ≡ none
      → to_cached codec r ≡ ok c
      → fetch_result s.fetch_mode (client (wrapping_add_u32 s.fetches 1) k) ≡ ok r
      → GetSpec s k r
          (record s { cache = insert k c s.cache; fetches = wrapping_add_u32 s.fetches 1 })
  miss-GetSpec s k c {r} laws e encoded fetched = record {
    answered = rw (view-unknown s k e) (sym (fetch_result-eq-answer s.fetch_mode _) ∙ fetched);
    learned = λ j. elim (Bool-cases (key_eq k j)) [
      | inl same ↦ rw (lookup-insert, same) (known-to_cached r c laws encoded)
      | inr other ↦ rw (lookup-insert, other)
    ];
    counted = rw (view-unknown s k e);
    mode_kept = refl;
  }

  -- Every read that returns has answered by what was known of the key, or else by the client, and has
  -- learned that answer and nothing else. It counts a fetch exactly when the key was unknown.
  pub get-GetSpec :
      (s : Source) (k : LedgerKey) {r : Option EntryWithLiveUntil} {t : Source}
      → IsCodec codec
      → get codec client s k ≡ ok (r, t)
      → GetSpec s k r t
  get-GetSpec s k laws h = elim (Option-cases (lookup k s.cache)) [
    | inl e ↦
        let (c, encoded, stored, fetched) = get-miss codec client s k e h in
        rw stored (miss-GetSpec s k c laws e encoded fetched)
    | inr (c, e) ↦ rw (get-hit codec client s k c e h) (hit-GetSpec s k (hit-settled s k c e h))
  ]

  -- What is known to be present is returned at once.
  pub get-present :
      (s : Source) (k : LedgerKey) (e : LedgerEntry) (live_until : Option ℕ)
      → view codec s k ≡ present e live_until
      → get codec client s k ≡ ok (some (e, live_until), s)
  unfolding get decode_entry
  get-present s k e l h = let (b, found, decoded) = known-present codec _ e l h in ground arith
