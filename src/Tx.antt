-- ===== src/Tx.antt =====
-- Transaction envelopes and host functions, as far as the crate builds and matches them.
use soroban_fork.Prelude.{ℕ, Option, List}
use soroban_fork.Prelude.Int.{ℤ}
use soroban_fork.Xdr.{Bytes, ScAddress, ScVal}

pub data HostFunction : Type 0 where
  invoke_contract : ScAddress → Bytes → List ScVal → HostFunction
  other_function : ℕ → HostFunction

pub data MuxedAccount : Type 0 where
  ed25519 : Bytes → MuxedAccount
  muxed_ed25519 : ℕ → Bytes → MuxedAccount

pub data OperationBody : Type 0 where
  invoke_host_function : HostFunction → OperationBody
  other_operation : ℕ → OperationBody

pub record Operation : Type 0 where
  pub source_account : Option MuxedAccount
  pub op_body : OperationBody

pub record Transaction : Type 0 where
  pub source_account : MuxedAccount
  pub fee : ℕ
  pub seq_num : ℤ
  pub operations : List Operation

-- The inner transaction of a fee bump is always a V1 transaction.
pub record FeeBumpTransaction : Type 0 where
  pub fee_source : MuxedAccount
  pub inner_tx : Transaction

pub data TransactionEnvelope : Type 0 where
  tx_v0 : ℕ → TransactionEnvelope
  tx : Transaction → List Bytes → TransactionEnvelope
  tx_fee_bump : FeeBumpTransaction → List Bytes → TransactionEnvelope

pub data TaggedTransaction : Type 0 where
  tagged_tx : Transaction → TaggedTransaction
  tagged_fee_bump : FeeBumpTransaction → TaggedTransaction
