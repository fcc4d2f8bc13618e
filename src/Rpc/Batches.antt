-- ===== src/Rpc/Batches.antt =====
-- RpcClient::fetch_entries, against a server that answers a batch by answering its keys one after another.
use soroban_fork.Prelude.{
  ℕ, zero, suc, ◌+◌, ◌≤◌, ◌<◌, none, some, List, [], ◌∷◌, ◌++◌, map, length, take, drop, ◌≡◌, refl,
  sym, ap, arith, append_assoc, append-nil, All,
}
use soroban_fork.Prelude.Outcome.{ok}
use soroban_fork.Prelude.Word.{u32_max}
use soroban_fork.Xdr.{Bytes}
use soroban_fork.Ledger.{LedgerKey}
use soroban_fork.Errors.{Try, done, collect, collect-∷, collect-append}
use soroban_fork.Rpc.{RpcConfig, FetchedEntry, Request, Http, EntryResult, Net}
use soroban_fork.Rpc.Post.{parsed, try_once, post_attempts, rpc_post, into_result, after_send}
use soroban_fork.Rpc.Retry.{wrapping_add_u32_lem}
use soroban_fork.Rpc.Fetch.{
  Codecs, encode_key, decode_entry, push_decoded, push_result, chunks, chunks_within, fetch_chunk,
  fetch_chunks, fetch_entries,
}

-- The items of all lists, in order.
unfoldable pub flat_map {ℓ κ} : {A : Type ℓ} {B : Type κ} → (A → List B) → List A → List B
flat_map f [] = []
flat_map f (x ∷ xs) = f x ++ flat_map f xs

module _ {ℓ} {A : Type ℓ} where
  take-++-drop : (n : ℕ) (xs : List A) → take n xs ++ drop n xs ≡ xs
  take-++-drop zero xs = refl
  take-++-drop (suc n) [] = refl
  take-++-drop (suc n) (x ∷ xs) = ap (λ rest. x ∷ rest) (take-++-drop n xs)

  length-drop : (n : ℕ) (x : A) (xs : List A) → length (drop (suc n) (x ∷ xs)) ≤ length xs
  length-drop zero x xs = omega arith
  length-drop (suc n) x [] = omega arith
  length-drop (suc n) x (y ∷ xs) = omega (arith, length-drop n y xs)

  length-take : (n : ℕ) (xs : List A) → length (take n xs) ≤ n
  length-take zero xs = omega arith
  length-take (suc n) [] = omega arith
  length-take (suc n) (x ∷ xs) = omega (arith, length-take n xs)

  -- Chunks of a positive size hold at most so many items each, and all the items in their order.
  pub chunks_within_lem :
      (fuel size : ℕ) (xs : List A)
      → length xs ≤ fuel
      → All (λ chunk. length chunk ≤ suc size) (chunks_within fuel (suc size) xs)
        × (flat_map (λ chunk. chunk) (chunks_within fuel (suc size) xs) ≡ xs)
  unfolding chunks_within flat_map
  chunks_within_lem zero size [] enough = (tt, refl)
  chunks_within_lem zero size (x ∷ xs) enough = ground (arith, enough)
  chunks_within_lem (suc fuel) size [] enough = (tt, refl)
  chunks_within_lem (suc fuel) size (x ∷ xs) enough =
      let (bounded, all) =
        chunks_within_lem fuel size (drop (suc size) (x ∷ xs))
          (omega (arith, enough, length-drop size x xs)) in
      ((length-take (suc size) (x ∷ xs), bounded), rw all (take-++-drop (suc size) (x ∷ xs)))

  pub chunks_lem :
      (size : ℕ) (xs : List A)
      → 0 < size
      → (batches : List (List A)) × (chunks size xs ≡ ok batches)
        × All (λ chunk. length chunk ≤ size) batches
        × (flat_map (λ chunk. chunk) batches ≡ xs)
  unfolding chunks
  chunks_lem zero xs positive = ground (arith, positive)
  chunks_lem (suc size) xs positive =
      let (bounded, all) = chunks_within_lem (length xs) size xs (omega arith) in
      (chunks_within (length xs) (suc size) xs, ground arith, bounded, all)

  flat_map-++ {κ} :
      {B : Type κ} (f : A → List B) (xs ys : List A)
      → flat_map f (xs ++ ys) ≡ flat_map f xs ++ flat_map f ys
  unfolding flat_map
  flat_map-++ f [] ys = refl
  flat_map-++ f (x ∷ xs) ys =
      rw (flat_map-++ f xs ys) (sym (append_assoc (f x) (flat_map f xs) (flat_map f ys)))

-- Entries that all decode are pushed in their order.
push_decoded-done :
    (codecs : Codecs) (results : List FetchedEntry) (wires : List EntryResult)
    {out : List FetchedEntry}
    → collect (decode_entry codecs) wires ≡ done out
    → push_decoded codecs results wires ≡ done (results ++ out)
unfolding push_decoded collect
push_decoded-done codecs results [] {out = out} h =
    let empty : out ≡ [] = cc h in rw (empty, append-nil results) refl
push_decoded-done codecs results (wire ∷ wires) h =
    let (entry, rest, first, later, eq) = collect-∷ (decode_entry codecs) wire wires h in
    rw
      (
        first,
        push_decoded-done codecs (results ++ (entry ∷ [])) wires later,
        append_assoc results (entry ∷ []) rest,
        eq,
      )
      refl

module _ (config : RpcConfig) (http : Http) (codecs : Codecs) (text : LedgerKey → Bytes)
    (answer : Bytes → List EntryResult) (held : LedgerKey → List FetchedEntry)
    (encodes : (key : LedgerKey) → encode_key codecs key ≡ done (text key))
    (serves : (number : ℕ) (texts : List Bytes)
      → try_once codecs.ledger_entries (http number (Request.get_ledger_entries_request texts))
        ≡ parsed (record {
          result = some (record { entries = some (flat_map answer texts) });
          error = none;
        }))
    (decodes : (key : LedgerKey)
      → collect (decode_entry codecs) (answer (text key)) ≡ done (held key)) where
  encoded : (keys : List LedgerKey) → collect (encode_key codecs) keys ≡ done (map text keys)
  unfolding collect
  encoded [] = refl
  encoded (key ∷ keys) = rw (encodes key, encoded keys) refl

  decoded :
      (keys : List LedgerKey)
      → collect (decode_entry codecs) (flat_map answer (map text keys)) ≡ done (flat_map held keys)
  unfolding collect flat_map
  decoded [] = refl
  decoded (key ∷ keys) =
      collect-append (decode_entry codecs) (answer (text key)) (flat_map answer (map text keys))
        (decodes key) (decoded keys)

  -- A first attempt that is parsed is the answer.
  answered_at_once :
      (texts : List Bytes) (net : Net)
      → config.retries < u32_max
      → rpc_post config codecs.ledger_entries http (Request.get_ledger_entries_request texts) net
        ≡ (
          done (record {
            result = some (record { entries = some (flat_map answer texts) });
            error = none;
          }),
          after_send net,
        )
  unfolding rpc_post post_attempts
  answered_at_once texts net small =
      rw (wrapping_add_u32_lem config.retries small, post_attempts, serves net.sent texts) refl

  fetch_chunk-served :
      (keys : List LedgerKey) (results : List FetchedEntry) (net : Net)
      → config.retries < u32_max
      → fetch_chunk config http codecs keys results net
        ≡ (done (results ++ flat_map held keys), after_send net)
  unfolding fetch_chunk into_result push_result
  fetch_chunk-served keys results net small =
      rw
        (
          encoded keys,
          answered_at_once (map text keys) net small,
          push_decoded-done codecs results (flat_map answer (map text keys)) (decoded keys),
        )
        refl

  fetch_chunks-served :
      (batches : List (List LedgerKey)) (results : List FetchedEntry) (net : Net)
      → config.retries < u32_max
      → ((fetch_chunks config http codecs batches results net).0
          ≡ done (results ++ flat_map held (flat_map (λ keys. keys) batches)))
        × ((fetch_chunks config http codecs batches results net).1.sent ≡ net.sent + length batches)
  unfolding fetch_chunks flat_map after_send
  fetch_chunks-served [] results net small = (rw (append-nil results) refl, omega arith)
  fetch_chunks-served (keys ∷ rest) results net small =
      let results' = results ++ flat_map held keys in
      let (out, sent) = fetch_chunks-served rest results' (after_send net) small in
      rw (fetch_chunk-served keys results net small) (
        rw
            (
              out,
              append_assoc results (flat_map held keys) (flat_map held (flat_map (λ x. x) rest)),
              flat_map-++ held keys (flat_map (λ x. x) rest),
            )
            refl,
        omega (arith, sent),
      )

  -- Against a server whose every answer is a success with what it has for the keys of the request, in their
  -- order, and whose entries decode, a client whose retries leave room for one more in a u32 and whose
  -- batches have a positive size fetches exactly what the server has for the keys, in the order of the keys,
  -- whatever that size is, with one request for each batch.
  pub fetch_entries-served :
      (keys : List LedgerKey) (net : Net)
      → config.retries < u32_max
      → 0 < config.max_keys_per_request
      → (batches : List (List LedgerKey)) × (out : Try (List FetchedEntry) × Net) × (chunks
            config.max_keys_per_request keys
          ≡ ok batches)
        × All (λ batch. length batch ≤ config.max_keys_per_request) batches
        × (fetch_entries config http codecs keys net ≡ ok out)
        × (out.0 ≡ done (flat_map held keys))
        × (out.1.sent ≡ net.sent + length batches)
  unfolding fetch_entries
  fetch_entries-served keys net small positive =
      let (batches, cut, bounded, all) = chunks_lem config.max_keys_per_request keys positive in
      let (out, sent) = fetch_chunks-served batches [] net small in
      (
        batches,
        fetch_chunks config http codecs batches [] net,
        cut,
        bounded,
        rw (cut, fetch_entries) refl,
        rw (out, all) refl,
        sent,
      )
