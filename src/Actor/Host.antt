-- ===== src/Actor/Host.antt =====
-- What the worker uses and the crate does not implement: the Soroban host, the XDR codec of envelopes
-- and events, SHA-256, the fee formula, and the RPC client.
use soroban_fork.Prelude.{ℕ, ◌≡◌, refl, ◌⊎◌, inl, inr, Option, List}
use soroban_fork.Prelude.Int.{ℤ}
use soroban_fork.Prelude.Outcome.{Outcome, ok, ◌>>=◌}
use soroban_fork.Xdr.{Bytes, ScVal}
use soroban_fork.Ledger.{LedgerKey}
use soroban_fork.Source.{Source, Codec, Client, LedgerEntryChange, EntryWithLiveUntil, get}
use soroban_fork.Tx.{HostFunction, TransactionEnvelope, TaggedTransaction}
use soroban_fork.Fees.{FeeConfiguration}
use soroban_fork.Env.{LedgerInfo}

-- Rust's `Result<A, String>`.
pub data Result {ℓ} (A : Type ℓ) : Type ℓ where
  success : A → Result A
  error : Bytes → Result A

pub record SorobanResources : Type 0 where
  pub read_only : List LedgerKey
  pub read_write : List LedgerKey
  pub instructions : ℕ
  pub disk_read_bytes : ℕ
  pub write_bytes : ℕ

pub Result-cases {ℓ} :
    {A : Type ℓ} (r : Result A) → ((a : A) × (r ≡ success a)) ⊎ ((e : Bytes) × (r ≡ error e))
Result-cases (success a) = inl (a, refl)
Result-cases (error e) = inr (e, refl)

-- Contract and diagnostic events and auth entries are passed on unread: each is named by a number.
pub record Recording : Type 0 where
  pub invoke_result : Result ScVal
  pub auth : List ℕ
  pub resources : SorobanResources
  pub contract_events : List ℕ
  pub ledger_changes : List LedgerEntryChange

-- `invoke_host_function_in_recording_mode` with its out-parameters.
pub record HostOutput : Type 0 where
  pub recorded : Result Recording
  pub diagnostic_events : List ℕ
  pub mem_bytes : Option ℕ

-- A run of the host. It has the snapshot source as a `SnapshotSource` alone, so that it can do nothing
-- to it but `get` keys, one after the other, each chosen by the answers before it.
pub data HostRun : Type 0 where
  finished : HostOutput → HostRun
  reads : LedgerKey → (Option EntryWithLiveUntil → HostRun) → HostRun

pub record TransactionResources : Type 0 where
  pub instructions : ℕ
  pub disk_read_entries : ℕ
  pub write_entries : ℕ
  pub disk_read_bytes : ℕ
  pub write_bytes : ℕ
  pub contract_events_size_bytes : ℕ
  pub transaction_size_bytes : ℕ

pub record World : Type 0 where
  pub codec : Codec
  pub client : Client
  pub host : HostFunction → Bytes → LedgerInfo → HostRun
  pub decode_envelope : Bytes → Option TransactionEnvelope
  pub encode_payload : Bytes → TaggedTransaction → Option Bytes
  pub sha256 : Bytes → Bytes
  pub event_size : ℕ → Option ℕ
  pub resource_fee : TransactionResources → FeeConfiguration → ℤ × ℤ

unfoldable pub run_host : Codec → Client → HostRun → Source → Outcome (HostOutput × Source)
run_host codec client (finished out) s = ok (out, s)
run_host codec client (reads k go) s =
    get codec client s k >>= λ (r, t). run_host codec client (go r) t
