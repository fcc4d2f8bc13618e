-- ===== src/Handlers/Etched.antt =====
-- fork_etch: the code under a contract is swapped, and its storage is kept.
use soroban_fork.Prelude.{ℕ, ap, ◌∙◌, ◌≡◌, ◌≢◌, ◌≤◌, refl, Option, none, some, length}
use soroban_fork.Prelude.Word.{u32_max}
use soroban_fork.Xdr.{Bytes, ScAddress, ScVal, ContractExecutable, InstanceStorage}
use soroban_fork.Ledger.{
  LedgerKey, LedgerEntry, LedgerEntryData, ContractDataEntry, ContractDataDurability, ledger_key_eq,
}
use soroban_fork.Source.{EntryWithLiveUntil, IsCodec}
use soroban_fork.Source.View.{known, view, settled}
use soroban_fork.Env.{ledger_sequence}
use soroban_fork.Hex.{hex_lower}
use soroban_fork.Actor.{Worker}
use soroban_fork.Actor.Simulation.{with_key}
use soroban_fork.Actor.Host.{World}
use soroban_fork.Handlers.{answered, Wire}
use soroban_fork.Handlers.Params.{EtchParams, Outside}
use soroban_fork.Handlers.Install.{preserved_storage, handle_fork_etch}
use soroban_fork.Handlers.Installed.{
  stored, Reads, code_bytes_lem, stored-ledger_sequence, send-set_ledger_entry,
  send-get_ledger_entries, set_and_report_lem, stored-Reads, stored-other, stored-view, get-view,
}

-- The keys and the entries that the ledger has for a code, and for the instance of a contract.
abbrev pub code_slot : Bytes → LedgerKey
code_slot hash = LedgerKey.contract_code hash

abbrev pub installed_code : Bytes → Bytes → LedgerEntry
installed_code hash code = record {
  last_modified_ledger_seq = 0;
  body = LedgerEntryData.contract_code (record { hash = hash; code = code });
}

abbrev pub instance_slot : Bytes → LedgerKey
instance_slot id =
    LedgerKey.contract_data (ScAddress.contract id) ScVal.ledger_key_contract_instance
      ContractDataDurability.persistent

abbrev pub running : Bytes → Bytes → InstanceStorage → LedgerEntry
running id hash kept = record {
  last_modified_ledger_seq = 0;
  body = LedgerEntryData.contract_data (record {
    contract = ScAddress.contract id;
    key = ScVal.ledger_key_contract_instance;
    durability = ContractDataDurability.persistent;
    val = ScVal.contract_instance (ContractExecutable.wasm hash) kept;
  });
}

module _ (w : World) (wire : Wire) (outside : Outside) (now : ℕ) where
  -- The storage that an instance has: none at all when there is no instance.
  abbrev HasStorage : Option EntryWithLiveUntil → InstanceStorage → Type 0
  HasStorage none kept = kept ≡ InstanceStorage.no_storage
  HasStorage (some (e, live_until)) kept =
      (cd : ContractDataEntry) × (executable : ContractExecutable) × (e.body
        ≡ LedgerEntryData.contract_data cd)
      × (cd.val ≡ ScVal.contract_instance executable kept)

  preserved_storage_lem :
      (k : LedgerKey) (r : Option EntryWithLiveUntil) (kept : InstanceStorage)
      → HasStorage r kept
      → preserved_storage (with_key k r) ≡ some kept
  unfolding preserved_storage with_key
  preserved_storage_lem k none kept h = rw h refl
  preserved_storage_lem k (some (e, live_until)) kept (cd, executable, body, val) =
      rw (body, val) refl

  -- A contract whose instance the cache knows, or knows to be absent, gets other code and keeps its storage: when the
  -- new code fits the ledger's format and both entries encode, the method answers with the code's digest, the worker
  -- reads back the code under its digest and the instance with that digest and the very storage that it had, none
  -- for a new one, and nothing else of the worker has changed.
  pub handle_fork_etch_lem :
      (params : EtchParams) (s : Worker) (r : Option EntryWithLiveUntil) (kept : InstanceStorage)
      {id wasm b b' : Bytes}
      → IsCodec w.codec
      → outside.contract_strkey params.contract ≡ some id
      → wire.b64_decode params.wasm ≡ some wasm
      → length wasm ≤ u32_max
      → view w.codec s.env.source (instance_slot id) ≡ settled r
      → HasStorage r kept
      → w.codec.encode (installed_code (w.sha256 wasm) wasm) ≡ some b
      → w.codec.encode (running id (w.sha256 wasm) kept) ≡ some b'
      → let live_until = params.live_until_ledger_seq in
        let t =
          stored
            (instance_slot id)
            b'
            live_until
            (stored (code_slot (w.sha256 wasm)) b live_until s) in
        (handle_fork_etch w wire outside now params (some s) ≡ (
          answered
              (record { hash = hex_lower (w.sha256 wasm); latest_ledger = ledger_sequence s.env }),
          some t,
        ))
        × Reads w t (code_slot (w.sha256 wasm)) (installed_code (w.sha256 wasm) wasm) live_until
        × Reads w t (instance_slot id) (running id (w.sha256 wasm) kept) live_until
  unfolding handle_fork_etch
  handle_fork_etch_lem params s r kept {id} {wasm} {b} {b'} laws owner decodes fits known_before has
        code_encodes encodes =
      let live_until = params.live_until_ledger_seq in
      let hash = w.sha256 wasm in
      let ik = instance_slot id in
      let ie = running id hash kept in
      let u = stored (code_slot hash) b live_until s in
      let differs : code_slot hash ≢ ik = λ e. cc e in
      let read = get-view w wire outside now u.env.source ik r (
        ap (known w.codec)
          (stored-other w wire outside now s (code_slot hash) ik b live_until differs)
        ∙ known_before) in
      (
        rw
            (
              owner,
              decodes,
              code_bytes_lem wasm fits,
              send-set_ledger_entry w wire outside now s (code_slot hash) (installed_code hash wasm)
                  live_until code_encodes,
              send-get_ledger_entries w wire outside now u ik read,
              preserved_storage_lem ik r kept has,
              set_and_report_lem w wire outside now u ik ie live_until encodes,
              stored-ledger_sequence s (code_slot hash) b live_until,
            )
            refl,
        get-view w wire outside now (stored ik b' live_until u).env.source (code_slot hash)
            (some (installed_code hash wasm, live_until))
            (ap (known w.codec)
                (stored-other w wire outside now u ik (code_slot hash) b' live_until (λ e. cc e))
              ∙ stored-view w wire outside now s (code_slot hash) (installed_code hash wasm)
                  live_until laws code_encodes),
        stored-Reads w wire outside now u ik ie live_until laws encodes,
      )
