-- ===== src/Source/Writes.antt =====
-- `set_entry` and `apply_changes`: what later reads see.
use soroban_fork.Prelude.{
  ℕ, ◌+◌, ◌≤◌, ◌≡◌, refl, Bool, false, Option, none, some, inl, inr, List, [], ◌∷◌, arith,
  if◌then◌else◌, Option-cases, Bool-cases, All, min, ◌≢◌,
}
use soroban_fork.Prelude.Outcome.{ok, >>=-eq-ok}
use soroban_fork.Prelude.Assoc.{lookup, insert, lookup-insert, lookup-insert_self}
use soroban_fork.Prelude.Word.{saturating_add_u32, u32_max}
use soroban_fork.Xdr.{Bytes}
use soroban_fork.Ledger.{LedgerKey, LedgerEntry, ledger_key_eq, key_eq, key_eq_iff}
use soroban_fork.Source.{
  Source, CachedBytes, Codec, IsCodec, Client, LedgerEntryChange, get, set_entry, apply_change,
  apply_all, apply_changes, written,
}

module _ (codec : Codec) where
  -- The number of changes that are not read-only.
  pub writes : List LedgerEntryChange → ℕ
  writes [] = 0
  writes (c ∷ cs) = (if c.read_only then 0 else 1) + writes cs

  concerns : LedgerEntryChange → LedgerKey → Bool
  concerns c j =
      if c.read_only
      then false
      else elim (codec.decode_key c.encoded_key) [ none ↦ false | some k ↦ key_eq k j ]

  -- What a change has to leave: its new bytes with its live-until ledger, or the negative marker.
  abbrev pub left_behind : Option Bytes → Option ℕ → Option CachedBytes
  left_behind none ttl = none
  left_behind (some bytes) ttl = some (bytes, ttl)

  written-left_behind :
      (c : LedgerEntryChange) → written c ≡ left_behind c.encoded_new_value c.ttl_change
  unfolding written
  written-left_behind c = elim (Option-cases c.encoded_new_value) [
    | inl e ↦ rw e refl
    | inr (b, e) ↦ rw e refl
  ]

  -- The cached value that the last change of a key leaves, if a change concerns it.
  pub last_write : LedgerKey → List LedgerEntryChange → Option (Option CachedBytes)
  last_write j [] = none
  last_write j (c ∷ cs) = elim (last_write j cs) [
    | some w ↦ some w
    | none ↦ if concerns c j then some (left_behind c.encoded_new_value c.ttl_change) else none
  ]

  abbrev pub or_before :
      Option (Option CachedBytes) → Option (Option CachedBytes) → Option (Option CachedBytes)
  or_before none before = before
  or_before (some w) before = some w

  apply_change-lookup :
      (s : Source) (n : ℕ) (c : LedgerEntryChange) {t : Source} {m : ℕ} (j : LedgerKey)
      → apply_change codec (s, n) c ≡ ok (t, m)
      → lookup j t.cache ≡ (
          if concerns c j
          then some (left_behind c.encoded_new_value c.ttl_change)
          else lookup j s.cache)
  unfolding apply_change concerns
  apply_change-lookup s n c {t} {m} j h = elim (Option-cases (codec.decode_key c.encoded_key)) [
    | inl e ↦ ground arith
    | inr (k, e) ↦ ground (arith, lookup-insert k j (written c) s.cache, written-left_behind c)
  ]

  apply_change-count :
      (s : Source) (n : ℕ) (c : LedgerEntryChange) {t : Source} {m : ℕ}
      → apply_change codec (s, n) c ≡ ok (t, m)
      → (m ≡ (if c.read_only then n else saturating_add_u32 n 1)) × (t.fetches ≡ s.fetches)
  unfolding apply_change
  apply_change-count s n c h = ground arith

  apply_all-lookup :
      (s : Source) (n : ℕ) (cs : List LedgerEntryChange) {t : Source} {m : ℕ} (j : LedgerKey)
      → apply_all codec (s, n) cs ≡ ok (t, m)
      → lookup j t.cache ≡ or_before (last_write j cs) (lookup j s.cache)
  unfolding apply_all last_write
  apply_all-lookup s n [] j h = ground arith
  apply_all-lookup s n (c ∷ cs) {t} j h =
      let ((u, k), first, rest) =
        >>=-eq-ok (apply_change codec (s, n) c) (λ p. apply_all codec p cs) h in
      ground (arith, apply_all-lookup u k cs j rest, apply_change-lookup s n c j first)

  apply_all-count :
      (s : Source) (n : ℕ) (cs : List LedgerEntryChange) {t : Source} {m : ℕ}
      → n ≤ u32_max
      → apply_all codec (s, n) cs ≡ ok (t, m)
      → (m ≡ min (n + writes cs) u32_max) × (t.fetches ≡ s.fetches)
  unfolding apply_all writes
  apply_all-count s n [] le h = ground arith
  apply_all-count s n (c ∷ cs) le h =
      let ((u, k), first, rest) =
        >>=-eq-ok (apply_change codec (s, n) c) (λ p. apply_all codec p cs) h in
      let (k_eq, same) = apply_change-count s n c first in
      let le' : k ≤ u32_max = ground arith in ground (arith, apply_all-count u k cs le' rest)

  -- Applying the changes of an invocation leaves at each key what the last change of it wrote: its new
  -- bytes with the change's live-until ledger, or the negative marker for a removal. A key
  -- that no writing change concerns keeps its cached value. No fetch is counted, and the result is
  -- the number of writing changes, up to the largest u32.
  pub apply_changes_lem :
      (s : Source) (cs : List LedgerEntryChange) {t : Source} {m : ℕ}
      → apply_changes codec s cs ≡ ok (t, m)
      → ((j : LedgerKey) → lookup j t.cache ≡ or_before (last_write j cs) (lookup j s.cache))
        × (m ≡ min (writes cs) u32_max)
        × (t.fetches ≡ s.fetches)
  unfolding apply_changes
  apply_changes_lem s cs h =
      let (count, fetches) = apply_all-count s 0 cs (omega arith) h in
      (λ j. apply_all-lookup s 0 cs j h, omega arith, fetches)

  -- The keys of the writing changes decode.
  abbrev pub HasKey : LedgerEntryChange → Type 0
  HasKey c = c.read_only ≡ false → (k : LedgerKey) × (codec.decode_key c.encoded_key ≡ some k)

  apply_change-total :
      (s : Source) (n : ℕ) (c : LedgerEntryChange)
      → HasKey c
      → (q : Source × ℕ) × (apply_change codec (s, n) c ≡ ok q)
  unfolding apply_change
  apply_change-total s n c h = elim (Bool-cases c.read_only) [
    | inl e ↦ ((s, n), rw e)
    | inr e ↦
        let (k, d) = h e in
        ((record s { cache = insert k (written c) s.cache }, saturating_add_u32 n 1), rw (e, d))
  ]

  apply_all-total :
      (cs : List LedgerEntryChange) (p : Source × ℕ)
      → All HasKey cs
      → (q : Source × ℕ) × (apply_all codec p cs ≡ ok q)
  unfolding apply_all
  apply_all-total [] p h = (p, refl)
  apply_all-total (c ∷ cs) (s, n) h =
      let (p, first) = apply_change-total s n c h.0 in
      let (q, rest) = apply_all-total cs p h.1 in (q, rw first rest)

  -- Applying changes panics only on a writing change whose key does not decode.
  pub apply_changes_total :
      (s : Source) (cs : List LedgerEntryChange)
      → All HasKey cs
      → (q : Source × ℕ) × (apply_changes codec s cs ≡ ok q)
  unfolding apply_changes
  apply_changes_total s cs h = apply_all-total cs (s, 0) h

  pub set_entry-eq-ok :
      (s : Source) (k : LedgerKey) (e : LedgerEntry) (live_until : Option ℕ) {t : Source}
      → set_entry codec s k e live_until ≡ ok t
      → (b : Bytes) × (codec.encode e ≡ some b)
        × (t ≡ record s { cache = insert k (some (b, live_until)) s.cache })
  unfolding set_entry
  set_entry-eq-ok s k e l h = elim (Option-cases (codec.encode e)) [
    | inl none_ ↦ ground arith
    | inr (b, some_) ↦ (b, some_, ground arith)
  ]

  get_stored :
      (client : Client) (s : Source) (k : LedgerKey) (b : Bytes) (live_until : Option ℕ)
      (e : LedgerEntry)
      → lookup k s.cache ≡ some (some (b, live_until))
      → codec.decode b ≡ some e
      → get codec client s k ≡ ok (some (e, live_until), s)
  unfolding get
  get_stored client s k b l e found decoded = ground arith

  pub other_key :
      (s : Source) (k j : LedgerKey) (c : Option CachedBytes)
      → k ≢ j
      → lookup j (insert k c s.cache) ≡ lookup j s.cache
  other_key s k j c ne = ground (arith, lookup-insert k j c s.cache, key_eq_iff k j)

  -- An entry that was set is what the next read of its key returns, with its live-until ledger and with
  -- no fetch, whatever was cached and whatever the client would say. Other keys keep
  -- their cached values.
  pub get-set_entry :
      (client : Client) (s : Source) (k : LedgerKey) (e : LedgerEntry) (live_until : Option ℕ)
      {t : Source}
      → IsCodec codec
      → set_entry codec s k e live_until ≡ ok t
      → (get codec client t k ≡ ok (some (e, live_until), t))
        × (t.fetches ≡ s.fetches)
        × ((j : LedgerKey) → k ≢ j → lookup j t.cache ≡ lookup j s.cache)
  get-set_entry client s k e l laws h =
      let (b, encoded, stored) = set_entry-eq-ok s k e l h in
      rw stored (
        get_stored client _ k b l e (lookup-insert_self k _ s.cache) (laws e b encoded),
        refl,
        λ j ne. other_key s k j _ ne,
      )
