-- ===== src/Handlers/Installed.antt =====
-- What the methods that install storage and code have done to the worker when they answer.
use soroban_fork.Prelude.{
  ℕ, Option-cases, inl, inr, ◌≡◌, ◌≢◌, ◌≤◌, refl, Option, none, some, [], ◌∷◌, length, arith,
}
use soroban_fork.Prelude.Outcome.{ok}
use soroban_fork.Prelude.Assoc.{lookup, insert, lookup-insert, lookup-insert_self}
use soroban_fork.Prelude.Word.{u32_max}
use soroban_fork.Xdr.{Bytes, ScAddress, ScVal}
use soroban_fork.Ledger.{LedgerKey, LedgerEntry, ledger_key_eq, key_eq_iff}
use soroban_fork.Source.{Source, EntryWithLiveUntil, IsCodec, get, set_entry}
use soroban_fork.Source.View.{Known, known, view, settled, known-present}
use soroban_fork.Env.{ledger_sequence}
use soroban_fork.Hex.{hex_lower}
use soroban_fork.Actor.{Worker, step, get_latest_ledger_reply}
use soroban_fork.Actor.Simulation.{resolve_ledger_entries, with_key}
use soroban_fork.Actor.Host.{World}
use soroban_fork.Actor.Messages.{Command, Reply}
use soroban_fork.Handlers.{answered, Wire, send, as_entry_set, as_latest_ledger, as_ledger_entries}
use soroban_fork.Handlers.Params.{SetStorageParams, SetCodeParams, Outside, durability_of}
use soroban_fork.Handlers.Install.{
  code_bytes, code_key, code_entry, data_key, data_entry, set_and_report, handle_fork_set_storage,
  handle_fork_set_code,
}

-- The worker with bytes stored for a key, and nothing else changed.
unfoldable pub stored : LedgerKey → Bytes → Option ℕ → Worker → Worker
stored k bytes live_until s = record s {
  env = record s.env {
    source = record s.env.source { cache = insert k (some (bytes, live_until)) s.env.source.cache };
  };
}

-- A read of the worker's source gives this entry, and leaves the source as it is.
abbrev pub Reads : World → Worker → LedgerKey → LedgerEntry → Option ℕ → Type 0
Reads w s k e live_until =
    get w.codec w.client s.env.source k ≡ ok (some (e, live_until), s.env.source)

pub code_bytes_lem : (wasm : Bytes) → length wasm ≤ u32_max → code_bytes wasm ≡ some wasm
unfolding code_bytes
code_bytes_lem wasm fits = ground (arith, fits)

pub stored-ledger_sequence :
    (s : Worker) (k : LedgerKey) (b : Bytes) (live_until : Option ℕ)
    → ledger_sequence (stored k b live_until s).env ≡ ledger_sequence s.env
unfolding stored ledger_sequence
stored-ledger_sequence s k b live_until = refl

module _ (w : World) (wire : Wire) (now : ℕ) where
  pub send-get_latest_ledger :
      (s : Worker)
      → send w wire now as_latest_ledger Command.get_latest_ledger (some s)
        ≡ (answered (get_latest_ledger_reply s.env), some s)
  unfolding send step as_latest_ledger
  send-get_latest_ledger s = refl

module _ (w : World) (wire : Wire) (outside : Outside) (now : ℕ) where
  step-set_ledger_entry :
      (s : Worker) (k : LedgerKey) (e : LedgerEntry) (live_until : Option ℕ) {b : Bytes}
      → w.codec.encode e ≡ some b
      → step w now s (Command.set_ledger_entry k e live_until)
        ≡ ok (Reply.entry_set, stored k b live_until s)
  unfolding step set_entry stored
  step-set_ledger_entry s k e live_until h = ground (arith, h)

  pub send-set_ledger_entry :
      (s : Worker) (k : LedgerKey) (e : LedgerEntry) (live_until : Option ℕ) {b : Bytes}
      → w.codec.encode e ≡ some b
      → send w wire now as_entry_set (Command.set_ledger_entry k e live_until) (some s)
        ≡ (answered tt, some (stored k b live_until s))
  unfolding send as_entry_set
  send-set_ledger_entry s k e live_until h =
      rw (step-set_ledger_entry s k e live_until h, send) refl

  -- A read of one key through the worker.
  pub send-get_ledger_entries :
      (s : Worker) (k : LedgerKey) {r : Option EntryWithLiveUntil} {u : Source}
      → get w.codec w.client s.env.source k ≡ ok (r, u)
      → send w wire now as_ledger_entries (Command.get_ledger_entries (k ∷ [])) (some s) ≡ (
        answered (record { entries = with_key k r ∷ []; latest_ledger = ledger_sequence s.env }),
        some (record s { env = record s.env { source = u } }),
      )
  unfolding send step as_ledger_entries resolve_ledger_entries ledger_sequence
  send-get_ledger_entries s k h = ground (arith, h)

  pub set_and_report_lem :
      (s : Worker) (k : LedgerKey) (e : LedgerEntry) (live_until : Option ℕ) {b : Bytes}
      → w.codec.encode e ≡ some b
      → set_and_report w wire outside now k e live_until (some s)
        ≡ (answered (ledger_sequence s.env), some (stored k b live_until s))
  unfolding set_and_report get_latest_ledger_reply stored ledger_sequence
  set_and_report_lem s k e live_until {b = b} h =
      rw
        (
          send-set_ledger_entry s k e live_until h,
          send-get_latest_ledger w wire now (stored k b live_until s),
        )
        refl

  -- What is stored for a key is read back.
  pub stored-Reads :
      (s : Worker) (k : LedgerKey) (e : LedgerEntry) (live_until : Option ℕ) {b : Bytes}
      → IsCodec w.codec
      → w.codec.encode e ≡ some b
      → Reads w (stored k b live_until s) k e live_until
  unfolding stored get
  stored-Reads s k e live_until {b = b} laws h =
      ground (arith, lookup-insert_self k (some (b, live_until)) s.env.source.cache, laws e b h)

  -- What is stored for a key does not change what is stored for another.
  pub stored-other :
      (s : Worker) (k j : LedgerKey) (b : Bytes) (live_until : Option ℕ)
      → k ≢ j
      → lookup j (stored k b live_until s).env.source.cache ≡ lookup j s.env.source.cache
  unfolding stored
  stored-other s k j b live_until ne =
      ground (arith, lookup-insert k j (some (b, live_until)) s.env.source.cache, key_eq_iff k j)

  -- A value that decodes is installed in the storage of a contract: when the entry encodes, the method answers with
  -- the latest ledger, the worker reads back the entry with its durability and its live-until ledger, and nothing
  -- else of the worker has changed.
  pub handle_fork_set_storage_lem :
      (params : SetStorageParams) (s : Worker) {id key_bytes value_bytes b : Bytes}
      {key value : ScVal}
      → IsCodec w.codec
      → outside.contract_strkey params.contract ≡ some id
      → wire.b64_decode params.key ≡ some key_bytes
      → outside.scval_from_xdr key_bytes ≡ some key
      → wire.b64_decode params.value ≡ some value_bytes
      → outside.scval_from_xdr value_bytes ≡ some value
      → w.codec.encode
          (data_entry (ScAddress.contract id) key (durability_of params.durability) value)
        ≡ some b
      → let k = data_key (ScAddress.contract id) key (durability_of params.durability) in
        let t = stored k b params.live_until_ledger_seq s in
        (handle_fork_set_storage w wire outside now params (some s)
          ≡ (answered (ledger_sequence s.env), some t))
        × Reads w t k
            (data_entry (ScAddress.contract id) key (durability_of params.durability) value)
            params.live_until_ledger_seq
  unfolding handle_fork_set_storage
  handle_fork_set_storage_lem params s {id} {key_bytes} {value_bytes} {b} {key} {value} laws owner
        k_bytes k_val v_bytes v_val encodes =
      let durability = durability_of params.durability in
      let k = data_key (ScAddress.contract id) key durability in
      let e = data_entry (ScAddress.contract id) key durability value in
      (
        rw (owner, k_bytes, k_val, v_bytes, v_val)
            (set_and_report_lem s k e params.live_until_ledger_seq encodes),
        stored-Reads s k e params.live_until_ledger_seq laws encodes,
      )

  -- Code that fits the ledger's format is installed under its digest: when the entry encodes, the method answers with
  -- the digest in hexadecimal and the latest ledger, the code is read back under its digest, and nothing else of the
  -- worker has changed.
  pub handle_fork_set_code_lem :
      (params : SetCodeParams) (s : Worker) {wasm b : Bytes}
      → IsCodec w.codec
      → wire.b64_decode params.wasm ≡ some wasm
      → length wasm ≤ u32_max
      → w.codec.encode (code_entry (w.sha256 wasm) wasm) ≡ some b
      → let k = code_key (w.sha256 wasm) in
        let t = stored k b params.live_until_ledger_seq s in
        (handle_fork_set_code w wire outside now params (some s) ≡ (
          answered
              (record { hash = hex_lower (w.sha256 wasm); latest_ledger = ledger_sequence s.env }),
          some t,
        ))
        × Reads w t k (code_entry (w.sha256 wasm) wasm) params.live_until_ledger_seq
  unfolding handle_fork_set_code
  handle_fork_set_code_lem params s {wasm = wasm} laws decodes fits encodes =
      let k = code_key (w.sha256 wasm) in
      let e = code_entry (w.sha256 wasm) wasm in
      (
        rw
            (
              decodes,
              code_bytes_lem wasm fits,
              set_and_report_lem s k e params.live_until_ledger_seq encodes,
            )
            refl,
        stored-Reads s k e params.live_until_ledger_seq laws encodes,
      )

  -- A key whose answer the source already knows is read from the cache.
  pub get-view :
      (s : Source) (k : LedgerKey) (r : Option EntryWithLiveUntil)
      → view w.codec s k ≡ settled r
      → get w.codec w.client s k ≡ ok (r, s)
  unfolding known get
  get-view s k none h = elim (Option-cases (lookup k s.cache)) [
    | inl e ↦ ground (arith, e, h)
    | inr (c, e) ↦ ground (arith, e, h)
  ]
  get-view s k (some (e, live_until)) h =
      let (b, hit, decodes) = known-present w.codec (lookup k s.cache) e live_until h in
      ground (arith, hit, decodes)

  pub stored-view :
      (s : Worker) (k : LedgerKey) (e : LedgerEntry) (live_until : Option ℕ) {b : Bytes}
      → IsCodec w.codec
      → w.codec.encode e ≡ some b
      → view w.codec (stored k b live_until s).env.source k ≡ Known.present e live_until
  unfolding stored known
  stored-view s k e live_until {b = b} laws h =
      ground (arith, lookup-insert_self k (some (b, live_until)) s.env.source.cache, laws e b h)
