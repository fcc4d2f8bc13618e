-- ===== src/Rpc.antt =====
-- src/rpc.rs: the client of a Soroban RPC endpoint, with its retries and its batches.
pub mod Backoff
pub mod Post
pub mod Retry
pub mod Fetch
pub mod Batches
pub mod Snippet
pub mod Generator
mod Examples
use soroban_fork.Prelude.{
  ℕ, ◌+◌, ◌==◌, ◌||◌, ◌&&◌, leb, Bool, Option, none, some, List, [], ◌∷◌, if◌then◌else◌,
}
use soroban_fork.Xdr.{Bytes}
use soroban_fork.Ledger.{LedgerKey, LedgerEntry, LedgerEntryData}
use soroban_fork.Errors.{ForkError}

-- Durations are numbers of nanoseconds. The timeout of a request is the HTTP client's affair.
pub record RpcConfig : Type 0 where
  pub retries : ℕ
  pub base_retry_delay : ℕ
  pub max_keys_per_request : ℕ

-- RpcConfig::default()
pub default_config : RpcConfig
default_config = record { retries = 3; base_retry_delay = 300000000; max_keys_per_request = 200 }

pub record FetchedEntry : Type 0 where
  pub entry : LedgerEntry
  pub live_until : Option ℕ

pub record LatestLedger : Type 0 where
  pub sequence : ℕ
  pub protocol_version : ℕ
  pub close_time : ℕ

pub record NetworkMetadata : Type 0 where
  pub passphrase : Bytes
  pub network_id : Bytes

-- The requests that the client makes: the method with its parameters.
pub data Request : Type 0 where
  get_latest_ledger_request : Request
  get_ledgers_request : ℕ → Request
  get_network_request : Request
  get_ledger_entries_request : List Bytes → Request

-- What `send()` of the HTTP client gives: an error, or a status and a body.
pub data HttpAnswer : Type 0 where
  no_answer : HttpAnswer
  response : ℕ → Bytes → HttpAnswer

-- The answer may depend on the number of the HTTP request.
abbrev pub Http : Type 0
Http = ℕ → Request → HttpAnswer

pub record JsonRpcResponse {ℓ} (T : Type ℓ) : Type ℓ where
  pub result : Option T
  pub error : Option Bytes

pub record EntryResult : Type 0 where
  pub xdr_text : Bytes
  pub last_modified_ledger_seq : ℕ
  pub live_until_ledger_seq : Option ℕ

-- The client's side of the world: the requests sent, the delays slept, and the generator's state.
pub record Net : Type 0 where
  pub sent : ℕ
  pub slept : List ℕ
  pub rng : ℕ

-- `matches!(code, 408 | 425 | 429) || status.is_server_error()`
unfoldable pub is_retryable : ℕ → Bool
is_retryable code = code == 408 || code == 425 || code == 429 || (leb 500 code && leb code 599)

-- `status.is_success()`
unfoldable pub is_success : ℕ → Bool
is_success code = leb 200 code && leb code 299
