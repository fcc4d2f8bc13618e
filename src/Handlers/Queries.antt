-- ===== src/Handlers/Queries.antt =====
-- src/server/handlers.rs: the methods getHealth, getNetwork, getLatestLedger, getLedgers and getLedgerEntries.
use soroban_fork.Prelude.{ℕ, Option, none, some, List, [], ◌∷◌, ◌++◌, codes}
use soroban_fork.Xdr.{Bytes}
use soroban_fork.Ledger.{LedgerKey}
use soroban_fork.Actor.Host.{World}
use soroban_fork.Actor.Messages.{Command, LatestLedgerReply, ResolvedEntry}
use soroban_fork.Handlers.{
  JsonRpcError, Rpc, ◌>>=◌, respond, or_refuse, Wire, to_text, as_network, as_latest_ledger,
  as_ledgers_page, as_ledger_entries, send,
}

pub record HealthResponse : Type 0 where
  pub status : Bytes
  pub latest_ledger : ℕ
  pub oldest_ledger : ℕ
  pub ledger_retention_window : ℕ

pub record NetworkResponse : Type 0 where
  pub passphrase : Bytes
  pub protocol_version : ℕ
  pub network_id : Bytes
  pub friendbot_url : Option Bytes

-- A page of ledgers has one ledger; the close times stand as decimal text.
pub record LedgersResponse : Type 0 where
  pub hash : Bytes
  pub sequence : ℕ
  pub ledger_close_time : Bytes
  pub latest_ledger : ℕ
  pub latest_ledger_close_time : Bytes
  pub oldest_ledger : ℕ
  pub oldest_ledger_close_time : Bytes
  pub cursor : Bytes

pub record LedgerEntryItem : Type 0 where
  pub item_key : Bytes
  pub item_xdr : Bytes
  pub last_modified_ledger_seq : ℕ
  pub live_until_ledger_seq : Option ℕ

pub record GetLedgerEntriesResponse : Type 0 where
  pub entries : List LedgerEntryItem
  pub latest_ledger : ℕ

module _ (w : World) (wire : Wire) (now : ℕ) where
  unfoldable pub handle_get_health : Rpc HealthResponse
  handle_get_health = do
    reply ← send w wire now as_latest_ledger Command.get_latest_ledger
    respond (record {
      latest_ledger = reply.sequence;
      oldest_ledger = reply.sequence;
      ledger_retention_window = 0;
      status = codes "healthy";
    })

  unfoldable pub handle_get_network : Rpc NetworkResponse
  handle_get_network = do
    reply ← send w wire now as_network Command.get_network
    respond (record {
      passphrase = reply.passphrase;
      protocol_version = reply.protocol_version;
      network_id = reply.network_id_hex;
      friendbot_url = none;
    })

  unfoldable pub handle_get_latest_ledger : Rpc LatestLedgerReply
  handle_get_latest_ledger = do
    reply ← send w wire now as_latest_ledger Command.get_latest_ledger
    respond reply

  unfoldable pub handle_get_ledgers : Rpc LedgersResponse
  handle_get_ledgers = do
    reply ← send w wire now as_ledgers_page Command.get_ledgers_page
    respond (record {
      hash = codes "forked-ledger-hash-" ++ to_text reply.sequence;
      sequence = reply.sequence;
      ledger_close_time = to_text reply.close_time;
      latest_ledger = reply.sequence;
      latest_ledger_close_time = to_text reply.close_time;
      oldest_ledger = reply.sequence;
      oldest_ledger_close_time = to_text reply.close_time;
      cursor = [];
    })

  unfoldable pub decode_keys : List Bytes → Rpc (List LedgerKey)
  decode_keys [] = respond []
  decode_keys (raw ∷ raws) = do
    bytes ← or_refuse JsonRpcError.invalid_params (wire.b64_decode raw)
    key ← or_refuse JsonRpcError.invalid_params (w.codec.decode_key bytes)
    keys ← decode_keys raws
    respond (key ∷ keys)

  -- The loop over the resolved entries, which passes the absent ones over.
  unfoldable pub encode_items : List ResolvedEntry → Rpc (List LedgerEntryItem)
  encode_items [] = respond []
  encode_items (none ∷ rs) = encode_items rs
  encode_items (some (k, e, live_until) ∷ rs) = do
    key_xdr ← or_refuse JsonRpcError.internal_error (wire.encode_key k)
    data_xdr ← or_refuse JsonRpcError.internal_error (wire.encode_data e.body)
    items ← encode_items rs
    respond (
        record {
          item_key = wire.b64_encode key_xdr;
          item_xdr = wire.b64_encode data_xdr;
          last_modified_ledger_seq = e.last_modified_ledger_seq;
          live_until_ledger_seq = live_until;
        }
        ∷ items)

  unfoldable pub resolve_keys : List Bytes → Rpc GetLedgerEntriesResponse
  resolve_keys raws = do
    keys ← decode_keys raws
    reply ← send w wire now as_ledger_entries (Command.get_ledger_entries keys)
    items ← encode_items reply.entries
    respond (record { entries = items; latest_ledger = reply.latest_ledger })

  unfoldable pub handle_get_ledger_entries : List Bytes → Rpc GetLedgerEntriesResponse
  handle_get_ledger_entries [] = or_refuse JsonRpcError.invalid_params none
  handle_get_ledger_entries (raw ∷ raws) = resolve_keys (raw ∷ raws)
