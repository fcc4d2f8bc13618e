-- ===== src/Source/Export.antt =====
-- `entries`: what a reachable source exports.
use soroban_fork.Prelude.{◌≡◌, Option, none, some, List, [], ◌∷◌, arith}
use soroban_fork.Prelude.Outcome.{ok, >>=->>=-eq-ok}
use soroban_fork.Prelude.Assoc.{lookup, IsMap}
use soroban_fork.Ledger.{LedgerKey, ledger_key_eq, key_eq_iff}
use soroban_fork.Source.{
  Source, Cache, Codec, EntryWithLiveUntil, entries, positive, decode_all, decode_entry,
}
use soroban_fork.Source.View.{Known, present, known, view}
use soroban_fork.Source.Invariant.{Reachable, Reachable-IsMap}

module _ (codec : Codec) where
  -- What the export of a key's entry holds.
  abbrev pub exported : Known → Option EntryWithLiveUntil
  exported (present e live_until) = some (e, live_until)
  exported _ = none

  entries-lookup :
      (m : Cache) {es : List (LedgerKey × EntryWithLiveUntil)} (j : LedgerKey)
      → IsMap m
      → decode_all codec (positive m) ≡ ok es
      → lookup j es ≡ exported (known codec (lookup j m))
  unfolding decode_all positive lookup known
  entries-lookup [] j m h = ground arith
  entries-lookup ((k, none) ∷ m) j u h =
      ground (arith, entries-lookup m j u.1 h, key_eq_iff k j, u.0)
  entries-lookup ((k, some (b, l)) ∷ m) j u h =
      let (e, rest, decoded, more, whole) =
        >>=->>=-eq-ok (decode_entry codec b) (λ _. decode_all codec (positive m))
          (λ e rest. (k, (e, l)) ∷ rest) h in
      ground (arith, entries-lookup m j u.1 more, decoded, whole)

  -- The export of a reachable source has an entry for a key exactly when the key is known to be present,
  -- and it is that entry with its live-until ledger: absent and unknown keys are left out.
  pub lookup-entries :
      (s : Source) {es : List (LedgerKey × EntryWithLiveUntil)} (j : LedgerKey)
      → Reachable codec s
      → entries codec s ≡ ok es
      → lookup j es ≡ exported (view codec s j)
  unfolding entries
  lookup-entries s j r h = entries-lookup s.cache j (Reachable-IsMap codec r) h
