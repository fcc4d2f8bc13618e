-- ===== src/Handlers/Responses.antt =====
-- src/server/types.rs: the responses of simulateTransaction and getTransaction, and the parts that their encodings take.
use soroban_fork.Prelude.{ℕ, Option, List}
use soroban_fork.Prelude.Int.{ℤ}
use soroban_fork.Xdr.{Bytes, ScVal}
use soroban_fork.Actor.Host.{SorobanResources}

pub record SorobanTransactionData : Type 0 where
  pub resources : SorobanResources
  pub resource_fee : ℤ

-- An event of a reply, named by a number: a contract event is wrapped, in a successful contract call.
pub data DiagnosticEvent : Type 0 where
  wrapped : ℕ → DiagnosticEvent
  diagnostic : ℕ → DiagnosticEvent

pub data InvokeHostFunctionResult : Type 0 where
  success_of : Bytes → InvokeHostFunctionResult
  trapped : InvokeHostFunctionResult

pub data TransactionResult : Type 0 where
  tx_success : List InvokeHostFunctionResult → TransactionResult
  tx_failed : List InvokeHostFunctionResult → TransactionResult

-- The meta of a transaction: no changes, no events, and the value returned.
pub record TransactionMeta : Type 0 where
  pub return_value : ScVal

-- The XDR encoders of the replies' parts.
pub record Encoders : Type 0 where
  pub scval_to_xdr : ScVal → Option Bytes
  pub auth_to_xdr : ℕ → Option Bytes
  pub data_to_xdr : SorobanTransactionData → Option Bytes
  pub event_to_xdr : DiagnosticEvent → Option Bytes
  pub result_to_xdr : TransactionResult → Option Bytes
  pub meta_to_xdr : TransactionMeta → Option Bytes

pub record SimulationCost : Type 0 where
  pub cpu_insns : Bytes
  pub mem_bytes : Bytes

pub record SimulateHostFunctionResult : Type 0 where
  pub auth : List Bytes
  pub xdr : Bytes

pub record SimulateTransactionResponse : Type 0 where
  pub transaction_data : Option Bytes
  pub min_resource_fee : Option Bytes
  pub events : Option (List Bytes)
  pub results : Option (List SimulateHostFunctionResult)
  pub cost : Option SimulationCost
  pub latest_ledger : ℕ
  pub failure : Option Bytes

pub data TransactionStatus : Type 0 where
  not_found succeeded failed : TransactionStatus

pub record GetTransactionResponse : Type 0 where
  pub status : TransactionStatus
  pub latest_ledger : ℕ
  pub ledger : Option ℕ
  pub created_at : Option Bytes
  pub envelope_xdr : Option Bytes
  pub return_value_xdr : Option Bytes
  pub result_xdr : Option Bytes
  pub result_meta_xdr : Option Bytes
  pub error_message : Option Bytes
  pub applied_changes : Option ℕ
