-- ===== src/Rpc/Examples.antt =====
-- Runs of the client on small data, and the theorems at them.
use soroban_fork.Prelude.{
  ℕ, suc, ap, All, ◌-◌, ◌*◌, ◌^◌, ◌+◌, ◌≤◌, ◌==◌, if◌then◌else◌, Option, none, some, List, [], ◌∷◌,
  ◌++◌, map, length, ◌≡◌, refl, arith,
}
use soroban_fork.Prelude.Outcome.{ok}
use soroban_fork.Xdr.{Bytes}
use soroban_fork.Ledger.{LedgerKey, LedgerEntryData}
use soroban_fork.Errors.{Try, done, collect}
use soroban_fork.Rpc.{
  RpcConfig, FetchedEntry, Request, response, no_answer, Http, JsonRpcResponse, EntryResult, Net,
  is_retryable, is_success,
}
use soroban_fork.Rpc.Backoff.{backoff_delay, backoff_delay_lem}
use soroban_fork.Rpc.Post.{
  Codec, parsed, try_once, read_body, post_attempts, rpc_post, into_result, after_send, after_sleep,
}
use soroban_fork.Rpc.Generator.{seed_rng, after_delays, IsState, after_delays-seed_rng}
use soroban_fork.Rpc.Retry.{deciding, conclude, tried, rpc_post_lem}
use soroban_fork.Rpc.Fetch.{
  Codecs, encode_key, decode_entry, push_decoded, push_result, chunks, chunks_within, fetch_chunk,
  fetch_chunks, fetch_entries,
}
use soroban_fork.Rpc.Batches.{flat_map, fetch_entries-served}

abbrev two_retries : RpcConfig
two_retries = record { retries = 2; base_retry_delay = 100; max_keys_per_request = 2 }

abbrev start : Net
start = record { sent = 0; slept = []; rng = 1 }

-- A body is a byte, which is the result; any other body is not JSON.
abbrev byte_of : Bytes → Option (JsonRpcResponse ℕ)
byte_of (b ∷ []) = some (record { result = some b; error = none })
byte_of _ = none

abbrev byte : Codec ℕ
byte = record { parse = byte_of }

-- The server fails once, limits the rate once, and answers from then on.
abbrev flaky : Http
flaky number request =
    if number == 0
    then no_answer
    else if number == 1
    then response 429 []
    else response 200 (7 ∷ [])

flaky_answer :
    (rpc_post two_retries byte flaky Request.get_network_request start).0
    ≡ done (record { result = some 7; error = none })
unfolding rpc_post post_attempts try_once read_body after_send after_sleep is_retryable is_success
flaky_answer = refl

rpc_post_lem_example :
    (((rpc_post two_retries byte flaky Request.get_network_request start).0
        ≡ conclude (
            tried byte flaky Request.get_network_request
              (deciding (tried byte flaky Request.get_network_request) 2 0)))
      × ((rpc_post two_retries byte flaky Request.get_network_request start).1.sent
          ≡ suc (deciding (tried byte flaky Request.get_network_request) 2 0))
      × (length (rpc_post two_retries byte flaky Request.get_network_request start).1.slept + 0
          ≡ 0 + deciding (tried byte flaky Request.get_network_request) 2 0))
    × (deciding (tried byte flaky Request.get_network_request) 2 0 ≤ 0 + 2)
rpc_post_lem_example =
    rpc_post_lem byte flaky Request.get_network_request two_retries start (omega arith)

backoff_delay_lem_example :
    (400 ≤ (backoff_delay 100 2 1).0)
    × ((backoff_delay 100 2 1).0 ≤ 500)
    × ((backoff_delay 100 2 1).0 ≤ (2 ^ 64 - 1) * 1000000000 + 999999999)
backoff_delay_lem_example = backoff_delay_lem 100 2 1

-- A server that has, for each byte of a key's text, one entry of contract code.
abbrev entry_of : ℕ → EntryResult
entry_of b = record {
  xdr_text = b ∷ [];
  last_modified_ledger_seq = 5;
  live_until_ledger_seq = some b;
}

abbrev fetched_of : ℕ → FetchedEntry
fetched_of b = record {
  entry = record {
    last_modified_ledger_seq = 5;
    body = LedgerEntryData.contract_code (record { hash = b ∷ []; code = [] });
  };
  live_until = some b;
}

abbrev text_of : LedgerKey → Bytes
text_of (LedgerKey.contract_code hash) = hash
text_of _ = []

abbrev codecs : Codecs
codecs = record {
  latest = record { parse = λ body. none };
  page = record { parse = λ body. none };
  network = record { parse = λ body. none };
  ledger_entries = record {
    parse = λ body.
        some
          (record { result = some (record { entries = some (map entry_of body) }); error = none });
  };
  key_to_xdr = λ key. some (text_of key);
  data_from_xdr =
      λ bytes. some (LedgerEntryData.contract_code (record { hash = bytes; code = [] }));
  b64_encode = λ bytes. bytes;
  b64_decode = λ text. some text;
  parse_u64 = λ text. none;
  sha256 = λ bytes. bytes;
}

abbrev honest : Http
honest number (Request.get_ledger_entries_request texts) =
    response 200 (flat_map (λ text. text) texts)
honest number _ = no_answer

map-++ : (f : ℕ → EntryResult) (xs ys : Bytes) → map f xs ++ map f ys ≡ map f (xs ++ ys)
map-++ f [] ys = refl
map-++ f (x ∷ xs) ys = ap (λ rest. f x ∷ rest) (map-++ f xs ys)

one_by_one :
    (texts : List Bytes)
    → map entry_of (flat_map (λ text. text) texts) ≡ flat_map (map entry_of) texts
unfolding flat_map
one_by_one [] = refl
one_by_one (text ∷ texts) =
    rw⁻¹ (map-++ entry_of text (flat_map (λ x. x) texts))
      (ap (λ rest. map entry_of text ++ rest) (one_by_one texts))

honest_lem :
    (number : ℕ) (texts : List Bytes)
    → try_once codecs.ledger_entries (honest number (Request.get_ledger_entries_request texts))
      ≡ parsed (record {
        result = some (record { entries = some (flat_map (map entry_of) texts) });
        error = none;
      })
unfolding try_once read_body is_retryable is_success
honest_lem number texts = rw (one_by_one texts) refl

all_decode :
    (bytes : Bytes)
    → collect (decode_entry codecs) (map entry_of bytes) ≡ done (map fetched_of bytes)
unfolding collect decode_entry
all_decode [] = refl
all_decode (b ∷ bytes) = rw (all_decode bytes) refl

encode_all : (key : LedgerKey) → encode_key codecs key ≡ done (text_of key)
unfolding encode_key
encode_all key = refl

abbrev three_keys : List LedgerKey
three_keys =
    LedgerKey.contract_code (1 ∷ [])
    ∷ LedgerKey.contract_code (2 ∷ 3 ∷ [])
    ∷ LedgerKey.contract_code (4 ∷ [])
    ∷ []

-- Three keys in batches of two are two requests, whose four entries come in order.
batches_of_three :
    fetch_entries two_retries honest codecs three_keys start
    ≡ ok (done (map fetched_of (1 ∷ 2 ∷ 3 ∷ 4 ∷ [])), record { sent = 2; slept = []; rng = 1 })
unfolding fetch_entries chunks fetch_chunks chunks_within fetch_chunk collect encode_key rpc_post
    post_attempts try_once is_retryable is_success read_body into_result push_result push_decoded
    flat_map decode_entry after_send
batches_of_three = refl

fetch_entries-served_example :
    (batches : List (List LedgerKey)) × (out : Try (List FetchedEntry) × Net) × (chunks 2 three_keys
      ≡ ok batches)
    × All (λ batch. length batch ≤ 2) batches
    × (fetch_entries two_retries honest codecs three_keys start ≡ ok out)
    × (out.0 ≡ done (flat_map (λ key. map fetched_of (text_of key)) three_keys))
    × (out.1.sent ≡ 0 + length batches)
fetch_entries-served_example =
    fetch_entries-served two_retries honest codecs text_of (map entry_of)
      (λ key. map fetched_of (text_of key)) encode_all honest_lem (λ key. all_decode (text_of key))
      three_keys start (omega arith) (omega arith)

after_delays-seed_rng_example :
    IsState (after_delays ((100, 0) ∷ (100, 1) ∷ []) (seed_rng (some 1750000000123456789)))
after_delays-seed_rng_example =
    after_delays-seed_rng (some 1750000000123456789) ((100, 0) ∷ (100, 1) ∷ [])
