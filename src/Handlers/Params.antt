-- ===== src/Handlers/Params.antt =====
-- src/server/types.rs and src/server/handlers.rs: the parameters and responses of the methods that write the fork's
-- state, and what those methods take from other crates.
use soroban_fork.Prelude.{ℕ, Option, none, some}
use soroban_fork.Prelude.Int.{ℤ}
use soroban_fork.Xdr.{Bytes, ScVal}
use soroban_fork.Ledger.{ContractDataDurability}
use soroban_fork.Tx.{TransactionEnvelope}

pub data StorageDurability : Type 0 where
  persistent temporary : StorageDurability

pub record SetStorageParams : Type 0 where
  pub contract : Bytes
  pub key : Bytes
  pub value : Bytes
  pub durability : Option StorageDurability
  pub live_until_ledger_seq : Option ℕ

pub record SetCodeParams : Type 0 where
  pub wasm : Bytes
  pub live_until_ledger_seq : Option ℕ

pub record SetCodeResponse : Type 0 where
  pub hash : Bytes
  pub latest_ledger : ℕ

pub record EtchParams : Type 0 where
  pub contract : Bytes
  pub wasm : Bytes
  pub live_until_ledger_seq : Option ℕ

pub data AssetWire : Type 0 where
  native : AssetWire
  credit : Bytes → Bytes → AssetWire
  token : Bytes → AssetWire

pub record SetBalanceParams : Type 0 where
  pub account : Bytes
  pub amount : Bytes
  pub asset : Option AssetWire

-- What stellar_strkey, the XDR codec and the number parsers of the standard library give, none for an error.
pub record Outside : Type 0 where
  pub contract_strkey : Bytes → Option Bytes
  pub account_strkey : Bytes → Option Bytes
  pub scval_from_xdr : Bytes → Option ScVal
  pub encode_envelope : TransactionEnvelope → Option Bytes
  pub parse_i64 : Bytes → Option ℤ
  pub parse_i128 : Bytes → Option ℤ

-- `durability.unwrap_or_default()`, as the ledger's durability
unfoldable pub durability_of : Option StorageDurability → ContractDataDurability
durability_of none = ContractDataDurability.persistent
durability_of (some StorageDurability.persistent) = ContractDataDurability.persistent
durability_of (some StorageDurability.temporary) = ContractDataDurability.temporary
