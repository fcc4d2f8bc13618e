-- ===== src/Rpc/Fetch.antt =====
-- The calls of RpcClient: the latest ledger, the network, and ledger entries in batches.
use soroban_fork.Prelude.{
  ℕ, zero, suc, Option, none, some, List, [], ◌∷◌, ◌++◌, length, take, drop, ◌==◌, if◌then◌else◌,
}
use soroban_fork.Prelude.Outcome.{Outcome, ok, panic}
use soroban_fork.Xdr.{Bytes}
use soroban_fork.Ledger.{LedgerKey, LedgerEntryData}
use soroban_fork.Errors.{ForkError, Try, done, failed, or_fail, collect}
use soroban_fork.Errors
use soroban_fork.Rpc.{
  RpcConfig, FetchedEntry, LatestLedger, NetworkMetadata, Request, Http, EntryResult, Net,
}
use soroban_fork.Rpc.Post.{Codec, rpc_post, into_result}

pub record GetLatestLedgerResult : Type 0 where
  pub protocol_version : ℕ
  pub sequence : ℕ

-- The close times of the ledgers, as text.
pub record GetLedgersResult : Type 0 where
  pub ledgers : List Bytes

pub record GetNetworkResult : Type 0 where
  pub passphrase : Bytes

pub record GetLedgerEntriesResult : Type 0 where
  pub entries : Option (List EntryResult)

-- What comes from other crates: serde's readings of the results, the XDR and base64 codecs, the parser of a u64, and
-- SHA-256.
pub record Codecs : Type 0 where
  pub latest : Codec GetLatestLedgerResult
  pub page : Codec GetLedgersResult
  pub network : Codec GetNetworkResult
  pub ledger_entries : Codec GetLedgerEntriesResult
  pub key_to_xdr : LedgerKey → Option Bytes
  pub data_from_xdr : Bytes → Option LedgerEntryData
  pub b64_encode : Bytes → Bytes
  pub b64_decode : Bytes → Option Bytes
  pub parse_u64 : Bytes → Option ℕ
  pub sha256 : Bytes → Bytes

-- A call of the client: it may fail, and it has an effect either way.
abbrev pub Client : Type 0 → Type 0
Client A = Net → Try A × Net

abbrev pub and_then : {A B : Type 0} → (A → Client B) → Try A × Net → Try B × Net
and_then f (done a, net) = f a net
and_then f (failed e, net) = (failed e, net)

infixl 5 ◌>>=◌
abbrev pub ◌>>=◌ : {A B : Type 0} → Client A → (A → Client B) → Client B
m >>= f = λ net. and_then f (m net)

abbrev pub lift : {A : Type 0} → Try A → Client A
lift r net = (r, net)

-- `iter().next()`
abbrev first : {A : Type 0} → List A → Option A
first [] = none
first (x ∷ xs) = some x

-- `Vec::pop`, what it returns
unfoldable pub pop {ℓ} : {A : Type ℓ} → List A → Option A
pop [] = none
pop (x ∷ []) = some x
pop (x ∷ (y ∷ rest)) = pop (y ∷ rest)

-- `slice::chunks` for a positive size, with at least as much fuel as there are items.
unfoldable pub chunks_within {ℓ} : {A : Type ℓ} → ℕ → ℕ → List A → List (List A)
chunks_within zero size xs = []
chunks_within (suc fuel) size [] = []
chunks_within (suc fuel) size (x ∷ xs) =
    take size (x ∷ xs) ∷ chunks_within fuel size (drop size (x ∷ xs))

-- It panics when the size is zero.
unfoldable pub chunks {ℓ} : {A : Type ℓ} → ℕ → List A → Outcome (List (List A))
chunks size xs = if size == 0 then panic else ok (chunks_within (length xs) size xs)

module _ (codecs : Codecs) where
  unfoldable pub encode_key : LedgerKey → Try Bytes
  encode_key key =
      Errors.◌>>=◌ (or_fail ForkError.xdr (codecs.key_to_xdr key))
        (λ bytes. done (codecs.b64_encode bytes))

  unfoldable pub decode_entry : EntryResult → Try FetchedEntry
  decode_entry wire =
      Errors.◌>>=◌ (or_fail ForkError.base64 (codecs.b64_decode wire.xdr_text)) (λ entry_bytes.
        Errors.◌>>=◌ (or_fail ForkError.xdr (codecs.data_from_xdr entry_bytes)) (λ entry_data.
          done record {
            entry = record {
              last_modified_ledger_seq = wire.last_modified_ledger_seq;
              body = entry_data;
            };
            live_until = wire.live_until_ledger_seq;
          }))

  -- `results.push(decode_entry(wire)?)` for every entry
  unfoldable pub push_decoded : List FetchedEntry → List EntryResult → Try (List FetchedEntry)
  push_decoded results [] = done results
  push_decoded results (wire ∷ entries) =
      Errors.◌>>=◌ (decode_entry wire) (λ entry. push_decoded (results ++ (entry ∷ [])) entries)

  unfoldable pub push_result : List FetchedEntry → GetLedgerEntriesResult → Try (List FetchedEntry)
  push_result results answer = elim answer.entries [
    | none ↦ done results
    | some entries ↦ push_decoded results entries
  ]

module _ (config : RpcConfig) (http : Http) (codecs : Codecs) where
  unfoldable pub get_ledger_close_time : ℕ → Client ℕ
  get_ledger_close_time sequence = do
    response ← rpc_post config codecs.page http (Request.get_ledgers_request sequence)
    answer ← lift (into_result response)
    text ← lift (or_fail ForkError.rpc_error (first answer.ledgers))
    lift (or_fail ForkError.rpc_error (codecs.parse_u64 text))

  unfoldable pub get_latest_ledger : Client LatestLedger
  get_latest_ledger = do
    response ← rpc_post config codecs.latest http Request.get_latest_ledger_request
    answer ← lift (into_result response)
    close_time ← get_ledger_close_time answer.sequence
    lift (
        done record {
          sequence = answer.sequence;
          protocol_version = answer.protocol_version;
          close_time = close_time;
        })

  unfoldable pub get_network : Client NetworkMetadata
  get_network = do
    response ← rpc_post config codecs.network http Request.get_network_request
    answer ← lift (into_result response)
    lift (
        done
          record { passphrase = answer.passphrase; network_id = codecs.sha256 answer.passphrase })

  -- One turn of the loop over the batches.
  unfoldable pub fetch_chunk : List LedgerKey → List FetchedEntry → Client (List FetchedEntry)
  fetch_chunk keys results = do
    encoded_keys ← lift (collect (encode_key codecs) keys)
    response ←
        rpc_post config codecs.ledger_entries http (Request.get_ledger_entries_request encoded_keys)
    answer ← lift (into_result response)
    lift (push_result codecs results answer)

  unfoldable pub fetch_chunks :
      List (List LedgerKey) → List FetchedEntry → Client (List FetchedEntry)
  fetch_chunks [] results = lift (done results)
  fetch_chunks (chunk ∷ rest) results = do
    results' ← fetch_chunk chunk results
    fetch_chunks rest results'

  unfoldable pub fetch_entries : List LedgerKey → Net → Outcome (Try (List FetchedEntry) × Net)
  fetch_entries keys net = elim (chunks config.max_keys_per_request keys) [
    | ok batches ↦ ok (fetch_chunks batches [] net)
    | panic ↦ panic
  ]

  unfoldable pub fetch_entry : LedgerKey → Net → Outcome (Try (Option FetchedEntry) × Net)
  fetch_entry key net = elim (fetch_entries (key ∷ []) net) [
    | ok out ↦ ok (and_then (λ entries. lift (done (pop entries))) out)
    | panic ↦ panic
  ]
