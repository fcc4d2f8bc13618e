-- ===== src/Source/Invariant.antt =====
-- The sources that the operations reach, and the cache's invariant.
use soroban_fork.Prelude.{
  ℕ, ◌≡◌, Option, none, some, inl, inr, List, [], ◌∷◌, arith, Option-cases, Bool-cases,
}
use soroban_fork.Prelude.Int.{ℤ}
use soroban_fork.Prelude.Outcome.{ok, >>=-eq-ok}
use soroban_fork.Prelude.Assoc.{lookup, insert, IsMap, insert-IsMap}
use soroban_fork.Xdr.{Bytes}
use soroban_fork.Ledger.{LedgerKey, LedgerEntry, ledger_key_eq}
use soroban_fork.Source.{
  Source, CachedBytes, Codec, Client, EntryWithLiveUntil, LedgerEntryChange, FetchMode, new, get,
  set_entry, preload, bump_account_seq, apply_changes, apply_all, apply_change, written,
  bump_cached, next_seq, encode_entry, with_fetch_mode,
}
use soroban_fork.Source.Reads.{get-hit, get-miss}
use soroban_fork.Source.Writes.{set_entry-eq-ok}

module _ (codec : Codec) where
  -- An operation of the crate took the one source to the other.
  pub data Step (s : Source) : Source → Type 0 where
    mode_set : (mode : FetchMode) → Step s (with_fetch_mode s mode)
    preloaded :
        (es : List (LedgerKey × LedgerEntry × Option ℕ)) {t : Source}
        → preload codec s es ≡ ok t
        → Step s t
    entry_set :
        (k : LedgerKey) (e : LedgerEntry) (live_until : Option ℕ) {t : Source}
        → set_entry codec s k e live_until ≡ ok t
        → Step s t
    seq_bumped : (id : Bytes) → Step s (bump_account_seq codec s id).0
    changed :
        (cs : List LedgerEntryChange) (n : ℕ) {t : Source}
        → apply_changes codec s cs ≡ ok (t, n)
        → Step s t
    read :
        (client : Client) (k : LedgerKey) (r : Option EntryWithLiveUntil) {t : Source}
        → get codec client s k ≡ ok (r, t)
        → Step s t

  pub data Reachable : Source → Type 0 where
    start : Reachable new
    next : {s t : Source} → Reachable s → Step s t → Reachable t

  preload-IsMap :
      (es : List (LedgerKey × LedgerEntry × Option ℕ)) (s : Source) {t : Source}
      → preload codec s es ≡ ok t
      → IsMap s.cache
      → IsMap t.cache
  unfolding preload
  preload-IsMap [] s {t} h m = let same : t ≡ s = cc in rw same m
  preload-IsMap ((k, e, l) ∷ es) s h m =
      let (b, _, rest) =
        >>=-eq-ok (encode_entry codec e)
          (λ b. preload codec (record s { cache = insert k (some (b, l)) s.cache }) es) h in
      preload-IsMap es (record s { cache = insert k (some (b, l)) s.cache }) rest
        (insert-IsMap k (some (b, l)) s.cache m)

  set_entry-IsMap :
      (s : Source) (k : LedgerKey) (e : LedgerEntry) (l : Option ℕ) {t : Source}
      → set_entry codec s k e l ≡ ok t
      → IsMap s.cache
      → IsMap t.cache
  set_entry-IsMap s k e l h m =
      let (b, _, stored) = set_entry-eq-ok codec s k e l h in
      rw stored (insert-IsMap k (some (b, l)) s.cache m)

  get-IsMap :
      (client : Client) (s : Source) (k : LedgerKey) {r : Option EntryWithLiveUntil} {t : Source}
      → get codec client s k ≡ ok (r, t)
      → IsMap s.cache
      → IsMap t.cache
  get-IsMap client s k h m = elim (Option-cases (lookup k s.cache)) [
    | inl e ↦
        let (c, _, stored, _) = get-miss codec client s k e h in
        rw stored (insert-IsMap k c s.cache m)
    | inr (c, e) ↦ rw (get-hit codec client s k c e h) m
  ]

  apply_change-IsMap :
      (s : Source) (n : ℕ) (c : LedgerEntryChange) {t : Source} {k : ℕ}
      → apply_change codec (s, n) c ≡ ok (t, k)
      → IsMap s.cache
      → IsMap t.cache
  unfolding apply_change
  apply_change-IsMap s n c {t} h m = elim (Bool-cases c.read_only) [
    | inl e ↦ let same : t ≡ s = ground arith in rw same m
    | inr e ↦ elim (Option-cases (codec.decode_key c.encoded_key)) [
      | inl none_ ↦ absurd (ground arith)
      | inr (k, some_) ↦
          let stored : t.cache ≡ insert k (written c) s.cache = ground arith in
          rw stored (insert-IsMap k (written c) s.cache m)
    ]
  ]

  apply_all-IsMap :
      (cs : List LedgerEntryChange) (s : Source) (n : ℕ) {t : Source} {k : ℕ}
      → apply_all codec (s, n) cs ≡ ok (t, k)
      → IsMap s.cache
      → IsMap t.cache
  unfolding apply_all
  apply_all-IsMap [] s n {t} h m = let same : t ≡ s = ground arith in rw same m
  apply_all-IsMap (c ∷ cs) s n h m =
      let ((u, i), first, rest) =
        >>=-eq-ok (apply_change codec (s, n) c) (λ p. apply_all codec p cs) h in
      apply_all-IsMap cs u i rest (apply_change-IsMap s n c first m)

  pub bump_cached-eq-some :
      (s : Source) (k : LedgerKey) (c : CachedBytes) {t : Source} {n : ℤ}
      → bump_cached codec s k c ≡ some (t, n)
      → (b : Bytes) × (t ≡ record s { cache = insert k (some (b, c.1)) s.cache })
  unfolding bump_cached
  bump_cached-eq-some s k (b, l) h = elim (Option-cases (codec.decode b)) [
    | inl undecoded ↦ absurd (ground arith)
    | inr (e, decoded) ↦ elim (Option-cases (next_seq e)) [
      | inl no_account ↦ absurd (ground arith)
      | inr ((e', m), raised) ↦ elim (Option-cases (codec.encode e')) [
        | inl unencoded ↦ absurd (ground arith)
        | inr (b', encoded) ↦ (b', ground arith)
      ]
    ]
  ]

  bump-IsMap :
      (s : Source) (id : Bytes) → IsMap s.cache → IsMap (bump_account_seq codec s id).0.cache
  unfolding bump_account_seq
  bump-IsMap s id m = elim (Option-cases (lookup (LedgerKey.account id) s.cache)) [
    | inl e ↦ rw (e, bump_account_seq) m
    | inr (none, e) ↦ rw (e, bump_account_seq) m
    | inr (some c, e) ↦ elim (Option-cases (bump_cached codec s (LedgerKey.account id) c)) [
      | inl q ↦ rw (e, bump_account_seq) (rw (q, bump_account_seq) m)
      | inr ((t, n), q) ↦
          let (b, stored) = bump_cached-eq-some s (LedgerKey.account id) c q in
          rw (e, bump_account_seq)
            (rw (q, bump_account_seq) (rw stored (insert-IsMap _ _ s.cache m)))
    ]
  ]

  Step-IsMap : {s t : Source} → Step s t → IsMap s.cache → IsMap t.cache
  unfolding with_fetch_mode apply_changes
  Step-IsMap {s} (mode_set mode) m = m
  Step-IsMap {s} (preloaded es h) m = preload-IsMap es s h m
  Step-IsMap {s} (entry_set k e l h) m = set_entry-IsMap s k e l h m
  Step-IsMap {s} (seq_bumped id) m = bump-IsMap s id m
  Step-IsMap {s} (changed cs n h) m = apply_all-IsMap cs s 0 h m
  Step-IsMap {s} (read client k r h) m = get-IsMap client s k h m

  -- In every reachable source no key is cached twice.
  pub Reachable-IsMap : {s : Source} → Reachable s → IsMap s.cache
  unfolding new
  Reachable-IsMap start = tt
  Reachable-IsMap (next r st) = Step-IsMap st (Reachable-IsMap r)
