-- ===== src/Xdr.antt =====
-- The ledger's data types, as far as the crate builds and matches them.
use soroban_fork.Prelude.{ℕ, Bool, List, ℕ_discrete}
use soroban_fork.Prelude.Int.{ℤ}

-- A byte string; each item is below 256. Hashes and keys are byte strings of length 32.
abbrev pub Bytes : Type 0
Bytes = List ℕ

-- `other_address` stands for the muxed, claimable-balance and liquidity-pool forms.
pub data ScAddress : Type 0 where
  account : Bytes → ScAddress
  contract : Bytes → ScAddress
  other_address : ℕ → ScAddress

pub data ContractExecutable : Type 0 where
  wasm : Bytes → ContractExecutable
  stellar_asset : ContractExecutable

-- `other` stands for the variants that the crate only prints by `Debug`.
mutual
  pub data ScVal : Type 0 where
    void : ScVal
    bool : Bool → ScVal
    u32 : ℕ → ScVal
    i32 : ℤ → ScVal
    u64 : ℕ → ScVal
    i64 : ℤ → ScVal
    u128 : ℕ → ℕ → ScVal
    i128 : ℤ → ℕ → ScVal
    symbol : Bytes → ScVal
    string : Bytes → ScVal
    bytes : Bytes → ScVal
    address : ScAddress → ScVal
    vec_none : ScVal
    vec : ScVec → ScVal
    map_none : ScVal
    map : ScMap → ScVal
    ledger_key_contract_instance : ScVal
    contract_instance : ContractExecutable → InstanceStorage → ScVal
    other : ℕ → ScVal

  pub data ScVec : Type 0 where
    no_items : ScVec
    item : ScVal → ScVec → ScVec

  pub data ScMap : Type 0 where
    no_entries : ScMap
    entry : ScVal → ScVal → ScMap → ScMap

  pub data InstanceStorage : Type 0 where
    no_storage : InstanceStorage
    storage : ScMap → InstanceStorage

unfoldable pub ScVal-discrete : Discrete ScVal
ScVal-discrete = hlevel ℕ_discrete
