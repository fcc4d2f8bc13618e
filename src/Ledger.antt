-- ===== src/Ledger.antt =====
-- Ledger keys and entries, as far as the crate builds and matches them. The extension points that the
-- crate only ever writes as `V0` are left out.
use soroban_fork.Prelude.{ℕ, Option, List, Bool, ℕ_discrete, ◌↔◌, ◌≡◌, true}
use soroban_fork.Prelude.Int.{ℤ}
use soroban_fork.Prelude.Assoc.{Eq, decided, decided_iff}
use soroban_fork.Xdr.{Bytes, ScAddress, ScVal, ScVal-discrete}

pub data ContractDataDurability : Type 0 where
  temporary persistent : ContractDataDurability

pub data TrustLineAsset : Type 0 where
  credit_alphanum4 : Bytes → Bytes → TrustLineAsset
  credit_alphanum12 : Bytes → Bytes → TrustLineAsset
  other_asset : ℕ → TrustLineAsset

pub data ConfigSettingId : Type 0 where
  contract_compute contract_ledger_cost contract_ledger_cost_ext : ConfigSettingId
  contract_historical_data contract_events contract_bandwidth : ConfigSettingId
  other_setting : ℕ → ConfigSettingId

-- An account is named by its 32-byte public key.
pub data LedgerKey : Type 0 where
  account : Bytes → LedgerKey
  trustline : Bytes → TrustLineAsset → LedgerKey
  contract_data : ScAddress → ScVal → ContractDataDurability → LedgerKey
  contract_code : Bytes → LedgerKey
  config_setting : ConfigSettingId → LedgerKey
  ttl : Bytes → LedgerKey
  other_key : ℕ → LedgerKey

LedgerKey-discrete : Discrete LedgerKey
LedgerKey-discrete = hlevel (ScVal-discrete, ℕ_discrete)

unfoldable pub key_eq : LedgerKey → LedgerKey → Bool
unfolding LedgerKey-discrete ScVal-discrete
key_eq a b = decided (LedgerKey-discrete a b)

pub key_eq_iff : (a b : LedgerKey) → (key_eq a b ≡ true) ↔ (a ≡ b)
unfolding key_eq
key_eq_iff a b = decided_iff (LedgerKey-discrete a b)

instance abbrev pub ledger_key_eq : Eq LedgerKey
ledger_key_eq = record { beq = key_eq; beq_iff = key_eq_iff }

pub record AccountEntry : Type 0 where
  pub account_id : Bytes
  pub balance : ℤ
  pub seq_num : ℤ
  pub num_sub_entries : ℕ
  pub inflation_dest : Option Bytes
  pub flags : ℕ
  pub home_domain : Bytes
  pub thresholds : Bytes
  pub signers : List (Bytes × ℕ)

pub record TrustLineEntry : Type 0 where
  pub account_id : Bytes
  pub asset : TrustLineAsset
  pub balance : ℤ
  pub limit : ℤ
  pub flags : ℕ

pub record ContractDataEntry : Type 0 where
  pub contract : ScAddress
  pub key : ScVal
  pub durability : ContractDataDurability
  pub val : ScVal

pub record ContractCodeEntry : Type 0 where
  pub hash : Bytes
  pub code : Bytes

pub data ConfigSettingEntry : Type 0 where
  compute : ℤ → ConfigSettingEntry
  ledger_cost : ℤ → ℤ → ℤ → ConfigSettingEntry
  ledger_cost_ext : ℤ → ConfigSettingEntry
  historical_data : ℤ → ConfigSettingEntry
  events : ℤ → ConfigSettingEntry
  bandwidth : ℤ → ConfigSettingEntry
  other_entry : ℕ → ConfigSettingEntry

pub data LedgerEntryData : Type 0 where
  account : AccountEntry → LedgerEntryData
  trustline : TrustLineEntry → LedgerEntryData
  contract_data : ContractDataEntry → LedgerEntryData
  contract_code : ContractCodeEntry → LedgerEntryData
  config_setting : ConfigSettingEntry → LedgerEntryData
  other_data : ℕ → LedgerEntryData

pub record LedgerEntry : Type 0 where
  pub last_modified_ledger_seq : ℕ
  pub body : LedgerEntryData
