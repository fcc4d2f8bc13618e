-- ===== src/Handlers/Install.antt =====
-- handle_fork_set_storage, handle_fork_set_code and handle_fork_etch of src/server/handlers.rs.
use soroban_fork.Prelude.{ℕ, Option, none, some, List, [], ◌∷◌, true, false, length, leb}
use soroban_fork.Prelude.Word.{u32_max}
use soroban_fork.Xdr.{Bytes, ScAddress, ScVal, ContractExecutable, InstanceStorage}
use soroban_fork.Ledger.{LedgerKey, LedgerEntry, LedgerEntryData, ContractDataDurability}
use soroban_fork.Hex.{hex_lower}
use soroban_fork.Actor.Host.{World}
use soroban_fork.Actor.Messages.{Command, ResolvedEntry}
use soroban_fork.Handlers.{
  Rpc, ◌>>=◌, respond, or_refuse, JsonRpcError, Wire, send, as_entry_set, as_latest_ledger,
  as_ledger_entries,
}
use soroban_fork.Handlers.Params.{
  SetStorageParams, SetCodeParams, SetCodeResponse, EtchParams, Outside, durability_of,
}

-- `wasm.try_into()` for an XDR byte string, which holds at most u32::MAX bytes.
unfoldable pub code_bytes : Bytes → Option Bytes
code_bytes wasm = elim (leb (length wasm) u32_max) [ true ↦ some wasm | false ↦ none ]

abbrev pub code_key : Bytes → LedgerKey
code_key hash = LedgerKey.contract_code hash

abbrev pub code_entry : Bytes → Bytes → LedgerEntry
code_entry hash code = record {
  last_modified_ledger_seq = 0;
  body = LedgerEntryData.contract_code (record { hash = hash; code = code });
}

abbrev pub data_key : ScAddress → ScVal → ContractDataDurability → LedgerKey
data_key owner key durability = LedgerKey.contract_data owner key durability

abbrev pub data_entry : ScAddress → ScVal → ContractDataDurability → ScVal → LedgerEntry
data_entry owner key durability value = record {
  last_modified_ledger_seq = 0;
  body =
      LedgerEntryData.contract_data
        (record { contract = owner; key = key; durability = durability; val = value });
}

abbrev pub instance_key : ScAddress → LedgerKey
instance_key owner =
    data_key owner ScVal.ledger_key_contract_instance ContractDataDurability.persistent

abbrev pub instance_entry : ScAddress → Bytes → InstanceStorage → LedgerEntry
instance_entry owner hash kept =
    data_entry owner ScVal.ledger_key_contract_instance ContractDataDurability.persistent
      (ScVal.contract_instance (ContractExecutable.wasm hash) kept)

-- `existing.entries.into_iter().next().flatten()`
abbrev pub first_entry : List ResolvedEntry → ResolvedEntry
first_entry [] = none
first_entry (r ∷ rest) = r

-- The storage to keep; none where the entry is not a contract's instance.
unfoldable pub preserved_storage : ResolvedEntry → Option InstanceStorage
preserved_storage none = some InstanceStorage.no_storage
preserved_storage (some (key, found, live_until)) = elim found.body [
  | LedgerEntryData.contract_data cd ↦ elim cd.val [
    | ScVal.contract_instance executable kept ↦ some kept
    | _ ↦ none
  ]
  | _ ↦ none
]

module _ (w : World) (wire : Wire) (outside : Outside) (now : ℕ) where
  -- The end that the three handlers share: the entry is set, and the response has the latest ledger.
  unfoldable pub set_and_report : LedgerKey → LedgerEntry → Option ℕ → Rpc ℕ
  set_and_report key entry live_until = do
    _ ← send w wire now as_entry_set (Command.set_ledger_entry key entry live_until)
    latest ← send w wire now as_latest_ledger Command.get_latest_ledger
    respond latest.sequence

  unfoldable pub handle_fork_set_storage : SetStorageParams → Rpc ℕ
  handle_fork_set_storage params = do
    id ← or_refuse JsonRpcError.invalid_params (outside.contract_strkey params.contract)
    key_bytes ← or_refuse JsonRpcError.invalid_params (wire.b64_decode params.key)
    key ← or_refuse JsonRpcError.invalid_params (outside.scval_from_xdr key_bytes)
    value_bytes ← or_refuse JsonRpcError.invalid_params (wire.b64_decode params.value)
    value ← or_refuse JsonRpcError.invalid_params (outside.scval_from_xdr value_bytes)
    let durability = durability_of params.durability
    set_and_report (data_key (ScAddress.contract id) key durability)
        (data_entry (ScAddress.contract id) key durability value) params.live_until_ledger_seq

  unfoldable pub handle_fork_set_code : SetCodeParams → Rpc SetCodeResponse
  handle_fork_set_code params = do
    wasm ← or_refuse JsonRpcError.invalid_params (wire.b64_decode params.wasm)
    let hash = w.sha256 wasm
    code ← or_refuse JsonRpcError.invalid_params (code_bytes wasm)
    latest ← set_and_report (code_key hash) (code_entry hash code) params.live_until_ledger_seq
    respond (record { hash = hex_lower hash; latest_ledger = latest })

  unfoldable pub handle_fork_etch : EtchParams → Rpc SetCodeResponse
  handle_fork_etch params = do
    id ← or_refuse JsonRpcError.invalid_params (outside.contract_strkey params.contract)
    wasm ← or_refuse JsonRpcError.invalid_params (wire.b64_decode params.wasm)
    let hash = w.sha256 wasm
    code ← or_refuse JsonRpcError.invalid_params (code_bytes wasm)
    _ ← send w wire now as_entry_set (
        Command.set_ledger_entry (code_key hash) (code_entry hash code)
          params.live_until_ledger_seq)
    existing ←
        send w wire now as_ledger_entries
          (Command.get_ledger_entries (instance_key (ScAddress.contract id) ∷ []))
    kept ← or_refuse JsonRpcError.internal_error (preserved_storage (first_entry existing.entries))
    latest ←
        set_and_report (instance_key (ScAddress.contract id))
          (instance_entry (ScAddress.contract id) hash kept) params.live_until_ledger_seq
    respond (record { hash = hex_lower hash; latest_ledger = latest })
