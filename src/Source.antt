-- ===== src/Source.antt =====
-- src/source.rs: `RpcSnapshotSource`, the cache of ledger entries over an RPC client.
pub mod View
pub mod Reads
pub mod Refines
pub mod Writes
pub mod Seq
pub mod Invariant
pub mod Export
pub mod Sample
pub mod Guarded
mod KeyText
mod Examples
use soroban_fork.Prelude.{
  ℕ, ◌+◌, ◌≡◌, Bool, true, false, Option, none, some, List, [], ◌∷◌, if◌then◌else◌,
}
use soroban_fork.Prelude.Int.{ℤ}
use soroban_fork.Prelude.Word.{wrapping_add_u32, saturating_add_u32, wrapping_suc_i64}
use soroban_fork.Prelude.Outcome.{Outcome, ok, panic, ◌>>=◌, or_panic}
use soroban_fork.Prelude.Assoc.{lookup, insert}
use soroban_fork.Xdr.{Bytes}
use soroban_fork.Ledger.{LedgerKey, LedgerEntry, LedgerEntryData, AccountEntry, ledger_key_eq}

pub data FetchMode : Type 0 where
  strict lenient : FetchMode

abbrev pub CachedBytes : Type 0
CachedBytes = Bytes × Option ℕ

abbrev pub Cache : Type 0
Cache = List (LedgerKey × Option CachedBytes)

pub record Source : Type 0 where
  pub cache : Cache
  pub fetches : ℕ
  pub fetch_mode : FetchMode

-- An entry with its live-until ledger.
abbrev pub EntryWithLiveUntil : Type 0
EntryWithLiveUntil = LedgerEntry × Option ℕ

-- The XDR codec, which is not part of the crate: `to_xdr` and `from_xdr` without limits.
pub record Codec : Type 0 where
  pub encode : LedgerEntry → Option Bytes
  pub decode : Bytes → Option LedgerEntry
  pub decode_key : Bytes → Option LedgerKey

-- An entry that encodes decodes to itself.
abbrev pub IsCodec : Codec → Type 0
IsCodec c = (e : LedgerEntry) (b : Bytes) → c.encode e ≡ some b → c.decode b ≡ some e

-- The answer of `RpcClient::fetch_entry`: the entry, its confirmed absence, or an error.
pub data Fetched : Type 0 where
  found : LedgerEntry → Option ℕ → Fetched
  absent : Fetched
  failed : Fetched

-- The client's answer may depend on the number of the fetch.
abbrev pub Client : Type 0
Client = ℕ → LedgerKey → Fetched

-- RpcSnapshotSource::new
pub new : Source
new = record { cache = []; fetches = 0; fetch_mode = FetchMode.strict }

-- RpcSnapshotSource::with_fetch_mode
pub with_fetch_mode : Source → FetchMode → Source
with_fetch_mode s mode = record s { fetch_mode = mode }

-- `LedgerEntryChange`, as far as `apply_changes` reads it.
pub record LedgerEntryChange : Type 0 where
  pub read_only : Bool
  pub encoded_key : Bytes
  pub encoded_new_value : Option Bytes
  pub ttl_change : Option ℕ

-- The `match` on the client's answer.
pub fetch_result : FetchMode → Fetched → Outcome (Option EntryWithLiveUntil)
fetch_result mode (found e live_until) = ok (some (e, live_until))
fetch_result mode absent = ok none
fetch_result FetchMode.strict failed = panic
fetch_result FetchMode.lenient failed = ok none

-- The account with the next sequence number, and that number.
pub next_seq : LedgerEntry → Option (LedgerEntry × ℤ)
next_seq e = elim e.body [
  | LedgerEntryData.account a ↦
      let next = wrapping_suc_i64 a.seq_num in
      some (record e { body = LedgerEntryData.account (record a { seq_num = next }) }, next)
  | _ ↦ none
]

pub written : LedgerEntryChange → Option CachedBytes
written c = elim c.encoded_new_value [ some b ↦ some (b, c.ttl_change) | none ↦ none ]

pub positive : Cache → List (LedgerKey × CachedBytes)
positive [] = []
positive ((k, some c) ∷ m) = (k, c) ∷ positive m
positive ((k, none) ∷ m) = positive m

module _ (codec : Codec) where
  unfoldable pub encode_entry : LedgerEntry → Outcome Bytes
  encode_entry e = or_panic (codec.encode e)

  pub decode_entry : Bytes → Outcome LedgerEntry
  decode_entry b = or_panic (codec.decode b)

  unfoldable pub preload : Source → List (LedgerKey × LedgerEntry × Option ℕ) → Outcome Source
  unfolding encode_entry
  preload s [] = ok s
  preload s ((k, e, live_until) ∷ es) = do
    b ← encode_entry e
    preload (record s { cache = insert k (some (b, live_until)) s.cache }) es

  unfoldable pub set_entry : Source → LedgerKey → LedgerEntry → Option ℕ → Outcome Source
  unfolding encode_entry
  set_entry s k e live_until = do
    b ← encode_entry e
    ok (record s { cache = insert k (some (b, live_until)) s.cache })

  pub bump_cached : Source → LedgerKey → CachedBytes → Option (Source × ℤ)
  unfolding next_seq
  bump_cached s k (b, live_until) = elim (codec.decode b) [
    | none ↦ none
    | some e ↦ elim (next_seq e) [
      | none ↦ none
      | some (e', next) ↦ elim (codec.encode e') [
        | none ↦ none
        | some b' ↦ some (record s { cache = insert k (some (b', live_until)) s.cache }, next)
      ]
    ]
  ]

  unfoldable pub bump_account_seq : Source → Bytes → Source × Option ℤ
  unfolding bump_cached
  bump_account_seq s account_id = elim (lookup (LedgerKey.account account_id) s.cache) [
    | some (some cached) ↦ elim (bump_cached s (LedgerKey.account account_id) cached) [
      | some (s', next) ↦ (s', some next)
      | none ↦ (s, none)
    ]
    | _ ↦ (s, none)
  ]

  -- One round of the loop of `apply_changes`: the source and the count of applied changes.
  unfoldable pub apply_change : Source × ℕ → LedgerEntryChange → Outcome (Source × ℕ)
  unfolding written
  apply_change (s, applied) c = if c.read_only then ok (s, applied) else do
    k ← or_panic (codec.decode_key c.encoded_key)
    ok (record s { cache = insert k (written c) s.cache }, saturating_add_u32 applied 1)

  unfoldable pub apply_all : Source × ℕ → List LedgerEntryChange → Outcome (Source × ℕ)
  unfolding apply_change
  apply_all s [] = ok s
  apply_all s (c ∷ cs) = do s' ← apply_change s c; apply_all s' cs

  unfoldable pub apply_changes : Source → List LedgerEntryChange → Outcome (Source × ℕ)
  unfolding apply_all
  apply_changes s cs = apply_all (s, 0) cs

  pub decode_all : List (LedgerKey × CachedBytes) → Outcome (List (LedgerKey × EntryWithLiveUntil))
  unfolding decode_entry
  decode_all [] = ok []
  decode_all ((k, (b, live_until)) ∷ m) = do
    e ← decode_entry b
    rest ← decode_all m
    ok ((k, (e, live_until)) ∷ rest)

  unfoldable pub entries : Source → Outcome (List (LedgerKey × EntryWithLiveUntil))
  unfolding positive decode_all
  entries s = decode_all (positive s.cache)

  pub to_cached : Option EntryWithLiveUntil → Outcome (Option CachedBytes)
  unfolding encode_entry
  to_cached none = ok none
  to_cached (some (e, live_until)) = do b ← encode_entry e; ok (some (b, live_until))

  module _ (client : Client) where
    unfoldable pub fetch_from_rpc :
        Source → LedgerKey → Outcome (Option EntryWithLiveUntil × Source)
    unfolding fetch_result to_cached
    fetch_from_rpc s k = do
      let count = wrapping_add_u32 s.fetches 1
      result ← fetch_result s.fetch_mode (client count k)
      cached ← to_cached result
      ok (result, record s { cache = insert k cached s.cache; fetches = count })

    -- SnapshotSource::get
    unfoldable pub get : Source → LedgerKey → Outcome (Option EntryWithLiveUntil × Source)
    unfolding fetch_from_rpc decode_entry
    get s k = elim (lookup k s.cache) [
      | some (some (b, live_until)) ↦ do e ← decode_entry b; ok (some (e, live_until), s)
      | some none ↦ ok (none, s)
      | none ↦ fetch_from_rpc s k
    ]
