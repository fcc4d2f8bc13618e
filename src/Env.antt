-- ===== src/Env.antt =====
-- src/lib.rs: the state of a `ForkedEnv`, its clock, its protocol version and its fee schedule.
pub mod Clock
pub mod FeeCell
mod Debug
mod Examples
use soroban_fork.Prelude.{ℕ, ◌+◌, ◌*◌, ◌/◌, ◌%◌, ◌^◌, min, Bool, Option, none, some, List, [], ◌∷◌}
use soroban_fork.Prelude.Outcome.{Outcome, ok, ◌>>=◌}
use soroban_fork.Prelude.Word.{saturating_add_u32, saturating_add_u64}
use soroban_fork.Xdr.{Bytes}
use soroban_fork.Source.{Source, Codec, Client}
use soroban_fork.Fees.{FeeConfiguration, fetch_fee_configuration}

-- The SDK's live ledger info, as far as the crate reads and moves it.
pub record LedgerInfo : Type 0 where
  pub protocol_version : ℕ
  pub sequence_number : ℕ
  pub timestamp : ℕ
  pub network_id : Bytes

-- `ledger_sequence` and `timestamp` of the source are the fork point here.
pub record ForkedEnv : Type 0 where
  pub info : LedgerInfo
  pub source : Source
  pub fork_sequence : ℕ
  pub fork_timestamp : ℕ
  pub network_id : Bytes
  pub protocol_version : ℕ
  pub passphrase : Option Bytes
  pub fee_cell : Option FeeConfiguration

abbrev pub ledger_interval_seconds : ℕ
ledger_interval_seconds = 5

abbrev pub default_fork_time_buffer_seconds : ℕ
default_fork_time_buffer_seconds = 3600

unfoldable pub ledger_sequence : ForkedEnv → ℕ
ledger_sequence env = env.info.sequence_number

unfoldable pub ledger_close_time : ForkedEnv → ℕ
ledger_close_time env = env.info.timestamp

unfoldable pub warp : ForkedEnv → ℕ → ℕ → ForkedEnv
warp env ledgers seconds = record env { info = moved }
  where
    moved : LedgerInfo
    moved = record env.info {
      sequence_number = saturating_add_u32 env.info.sequence_number ledgers;
      timestamp = saturating_add_u64 env.info.timestamp seconds;
    }

-- The quotient is cast to a u32.
unfoldable pub warp_time : ForkedEnv → ℕ → ForkedEnv
unfolding warp
warp_time env seconds = warp env (seconds / ledger_interval_seconds % 2 ^ 32) seconds

unfoldable pub warp_ledger : ForkedEnv → ℕ → ForkedEnv
unfolding warp
warp_ledger env ledgers = warp env ledgers (ledgers * ledger_interval_seconds)

unfoldable pub cap_protocol_version : ℕ → Option ℕ → ℕ → ℕ
cap_protocol_version latest none host_max = min latest host_max
cap_protocol_version latest (some m) host_max = min latest (min m host_max)

-- `build`: the timestamp that the fork starts from.
unfoldable pub build_timestamp : Option ℕ → ℕ → ℕ
build_timestamp none close_time = saturating_add_u64 close_time default_fork_time_buffer_seconds
build_timestamp (some pinned) close_time = pinned

module _ (codec : Codec) (client : Client) where
  -- The lazily filled cell; `none` in the result is an error, which leaves the cell empty.
  unfoldable pub fee_configuration : ForkedEnv → Outcome (Option FeeConfiguration × ForkedEnv)
  fee_configuration env = elim env.fee_cell [
    | some cfg ↦ ok (some cfg, env)
    | none ↦ do
      (cfg, s) ← fetch_fee_configuration codec client env.source
      ok (cfg, record env { source = s; fee_cell = cfg })
  ]
