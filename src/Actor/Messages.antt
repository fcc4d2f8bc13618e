-- ===== src/Actor/Messages.antt =====
-- The commands of the worker and its replies. A command's reply channel is the result of the step.
use soroban_fork.Prelude.{ℕ, Option, List}
use soroban_fork.Prelude.Int.{ℤ}
use soroban_fork.Xdr.{Bytes, ScVal}
use soroban_fork.Ledger.{LedgerKey, LedgerEntry}
use soroban_fork.Tx.{HostFunction}
use soroban_fork.Actor.Host.{Result, SorobanResources}

pub data Command : Type 0 where
  get_network : Command
  get_latest_ledger : Command
  get_ledgers_page : Command
  get_ledger_entries : List LedgerKey → Command
  simulate_tx : HostFunction → Bytes → ℕ → Command
  send_tx : Bytes → HostFunction → Bytes → Command
  set_ledger_entry : LedgerKey → LedgerEntry → Option ℕ → Command
  close_ledgers : ℕ → ℕ → Command
  get_transaction : Bytes → Command

pub record NetworkReply : Type 0 where
  pub passphrase : Bytes
  pub protocol_version : ℕ
  pub network_id_hex : Bytes

pub record LatestLedgerReply : Type 0 where
  pub sequence : ℕ
  pub protocol_version : ℕ
  pub id : Bytes

pub record LedgersPageReply : Type 0 where
  pub sequence : ℕ
  pub close_time : ℕ

abbrev pub ResolvedEntry : Type 0
ResolvedEntry = Option (LedgerKey × LedgerEntry × Option ℕ)

pub record LedgerEntriesReply : Type 0 where
  pub entries : List ResolvedEntry
  pub latest_ledger : ℕ

pub record SimulationReply : Type 0 where
  pub sim_result : Result ScVal
  pub auth : List ℕ
  pub resources : SorobanResources
  pub contract_events : List ℕ
  pub diagnostic_events : List ℕ
  pub latest_ledger : ℕ
  pub min_resource_fee : Option ℤ
  pub mem_bytes : Option ℕ

pub record TxReceipt : Type 0 where
  pub tx_result : Result ScVal
  pub envelope_bytes : Bytes
  pub ledger : ℕ
  pub created_at : ℕ
  pub applied_changes : ℕ

pub record SendReply : Type 0 where
  pub hash : Bytes
  pub receipt : TxReceipt

pub record CloseLedgersReply : Type 0 where
  pub new_sequence : ℕ
  pub new_close_time : ℕ

pub data Reply : Type 0 where
  network : NetworkReply → Reply
  latest_ledger : LatestLedgerReply → Reply
  ledgers_page : LedgersPageReply → Reply
  ledger_entries : LedgerEntriesReply → Reply
  simulated : SimulationReply → Reply
  sent : SendReply → Reply
  entry_set : Reply
  ledgers_closed : CloseLedgersReply → Reply
  transaction : Option TxReceipt → Reply
