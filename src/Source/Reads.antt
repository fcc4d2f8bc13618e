-- ===== src/Source/Reads.antt =====
-- `get`: hits, misses, and what a source knows afterwards.
use soroban_fork.Prelude.{
  ℕ, ◌≡◌, ◌∙◌, sym, ap, refl, Option, none, some, inl, inr, arith, Option-cases,
}
use soroban_fork.Prelude.Outcome.{ok, >>=->>=-eq-ok}
use soroban_fork.Prelude.Assoc.{lookup, insert, lookup-insert, lookup-insert_self}
use soroban_fork.Prelude.Word.{wrapping_add_u32}
use soroban_fork.Ledger.{LedgerKey, ledger_key_eq, key_eq_iff}
use soroban_fork.Source.{
  Source, CachedBytes, Codec, IsCodec, Client, EntryWithLiveUntil, get, fetch_from_rpc,
  fetch_result, to_cached, encode_entry,
}
use soroban_fork.Source.View.{Extends, Extends-refl}

module _ (codec : Codec) (client : Client) where
  pub get-hit :
      (s : Source) (k : LedgerKey) (c : Option CachedBytes) {r : Option EntryWithLiveUntil}
      {t : Source}
      → lookup k s.cache ≡ some c
      → get codec client s k ≡ ok (r, t)
      → t ≡ s
  unfolding get
  get-hit s k none e h = ground arith
  get-hit s k (some (b, l)) e h = ground arith

  -- A successful miss counts one fetch and stores its own answer.
  pub get-eq-fetch :
      (s : Source) (k : LedgerKey)
      → lookup k s.cache ≡ none
      → get codec client s k ≡ fetch_from_rpc codec client s k
  unfolding get
  get-eq-fetch s k e = rw (e, get)

  fetch_from_rpc-eq-ok :
      (s : Source) (k : LedgerKey) {r : Option EntryWithLiveUntil} {t : Source}
      → fetch_from_rpc codec client s k ≡ ok (r, t)
      → (c : Option CachedBytes) × (to_cached codec r ≡ ok c)
        × (t ≡ record s { cache = insert k c s.cache; fetches = wrapping_add_u32 s.fetches 1 })
        × (fetch_result s.fetch_mode (client (wrapping_add_u32 s.fetches 1) k) ≡ ok r)
  unfolding fetch_from_rpc
  fetch_from_rpc-eq-ok s k h =
      let count = wrapping_add_u32 s.fetches 1 in
      let (r', c, fetched, encoded, done) =
        >>=->>=-eq-ok (fetch_result s.fetch_mode (client count k)) (to_cached codec)
          (λ r c. (r, record s { cache = insert k c s.cache; fetches = count })) h in
      let same = ap (λ p. p.0) done in (c, rw same encoded, ap (λ p. p.1) done, rw same fetched)

  pub get-miss :
      (s : Source) (k : LedgerKey) {r : Option EntryWithLiveUntil} {t : Source}
      → lookup k s.cache ≡ none
      → get codec client s k ≡ ok (r, t)
      → (c : Option CachedBytes) × (to_cached codec r ≡ ok c)
        × (t ≡ record s { cache = insert k c s.cache; fetches = wrapping_add_u32 s.fetches 1 })
        × (fetch_result s.fetch_mode (client (wrapping_add_u32 s.fetches 1) k) ≡ ok r)
  get-miss s k e h = fetch_from_rpc-eq-ok s k (sym (get-eq-fetch s k e) ∙ h)

  get_cached :
      (s : Source) (k : LedgerKey) (c : Option CachedBytes) (r : Option EntryWithLiveUntil)
      → IsCodec codec
      → lookup k s.cache ≡ some c
      → to_cached codec r ≡ ok c
      → get codec client s k ≡ ok (r, s)
  unfolding get to_cached encode_entry
  get_cached s k c none laws e h = ground arith
  get_cached s k none (some (en, l)) laws e h = ground arith
  get_cached s k (some (b, l')) (some (en, l)) laws e h = ground (arith, laws en b)

  -- A second read of the same key gives the answer of the first, found or absent, and changes nothing:
  -- it makes no fetch.
  pub get-get :
      (s : Source) (k : LedgerKey) {r : Option EntryWithLiveUntil} {t : Source}
      → IsCodec codec
      → get codec client s k ≡ ok (r, t)
      → get codec client t k ≡ ok (r, t)
  get-get s k laws h = elim (Option-cases (lookup k s.cache)) [
    | inl e ↦
        let (c, encoded, stored, _) = get-miss s k e h in
        get_cached _ k c _ laws (ap (λ u. lookup k u.cache) stored ∙ lookup-insert_self k c s.cache)
          encoded
    | inr (c, e) ↦ rw (get-hit s k c e h) (rw (get-hit s k c e h) at h)
  ]

  insert-Extends :
      (s : Source) (k : LedgerKey) (c : Option CachedBytes) (n : ℕ)
      → lookup k s.cache ≡ none
      → Extends s (record s { cache = insert k c s.cache; fetches = n })
  insert-Extends s k c n e = record {
    kept = λ j c' h. ground (arith, lookup-insert k j c s.cache, key_eq_iff k j);
    same_mode = refl;
  }

  -- A read keeps all that was known.
  pub get-Extends :
      (s : Source) (k : LedgerKey) {r : Option EntryWithLiveUntil} {t : Source}
      → get codec client s k ≡ ok (r, t)
      → Extends s t
  get-Extends s k h = elim (Option-cases (lookup k s.cache)) [
    | inl e ↦ let (c, _, stored, _) = get-miss s k e h in rw stored (insert-Extends s k c _ e)
    | inr (c, e) ↦ rw (get-hit s k c e h) (Extends-refl s)
  ]
