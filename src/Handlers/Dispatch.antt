-- ===== src/Handlers/Dispatch.antt =====
-- jsonrpc_handler and dispatch of src/server/handlers.rs, with handle_get_version_info.
use soroban_fork.Prelude.{ℕ, Option, none, some, List, [], ◌∷◌, codes, bytes_eq, if◌then◌else◌}
use soroban_fork.Xdr.{Bytes}
use soroban_fork.Actor.{Worker}
use soroban_fork.Actor.Host.{World}
use soroban_fork.Actor.Messages.{Command, LatestLedgerReply}
use soroban_fork.Handlers.{
  Rpc, Answer, ◌>>=◌, respond, or_refuse, JsonRpcError, Wire, send, as_network,
}
use soroban_fork.Handlers.Commands.{
  SendTransactionResponse, CloseLedgersResponse, handle_send_transaction,
  handle_fork_set_ledger_entry, handle_fork_close_ledgers,
}
use soroban_fork.Handlers.Queries.{
  HealthResponse, NetworkResponse, LedgersResponse, GetLedgerEntriesResponse, handle_get_health,
  handle_get_network, handle_get_latest_ledger, handle_get_ledgers, handle_get_ledger_entries,
}
use soroban_fork.Handlers.Params.{
  Outside, SetStorageParams, SetCodeParams, SetCodeResponse, EtchParams, SetBalanceParams,
}
use soroban_fork.Handlers.Install.{handle_fork_set_storage, handle_fork_set_code, handle_fork_etch}
use soroban_fork.Handlers.Balance.{handle_fork_set_balance}
use soroban_fork.Handlers.Replies.{handle_simulate_transaction, handle_get_transaction}
use soroban_fork.Handlers.Responses.{Encoders, SimulateTransactionResponse, GetTransactionResponse}

pub record VersionInfoResponse : Type 0 where
  pub version : Bytes
  pub commit_hash : Bytes
  pub build_timestamp : Bytes
  pub captive_core_version : Bytes
  pub protocol_version : ℕ

pub record SetLedgerEntryParams : Type 0 where
  pub key : Bytes
  pub entry : Bytes
  pub live_until_ledger_seq : Option ℕ

pub record CloseLedgersParams : Type 0 where
  pub ledgers : Option ℕ
  pub timestamp_advance_seconds : Option ℕ

-- A request; its parameters are JSON text that serde reads, and so is its id.
pub record JsonRpcRequest : Type 0 where
  pub jsonrpc : Bytes
  pub id : Bytes
  pub method : Bytes
  pub params : Bytes

-- The bodies of the responses.
pub data Body : Type 0 where
  health : HealthResponse → Body
  version_info : VersionInfoResponse → Body
  network : NetworkResponse → Body
  latest_ledger : LatestLedgerReply → Body
  ledgers : LedgersResponse → Body
  ledger_entries : GetLedgerEntriesResponse → Body
  simulated : SimulateTransactionResponse → Body
  sent : SendTransactionResponse → Body
  transaction : GetTransactionResponse → Body
  entry_set : ℕ → Body
  code_set : SetCodeResponse → Body
  balance_set : ℕ → Body
  ledgers_closed : CloseLedgersResponse → Body

-- The HTTP response: an error of the envelope, or a JSON-RPC response with the request's id.
pub data HttpReply : Type 0 where
  bad_request : HttpReply
  json_rpc : Bytes → Answer Body → HttpReply

-- serde's readings of the parameters, and the version that the build puts in.
pub record Readers : Type 0 where
  pub read_ledger_range : Bytes → Option (Unit {0})
  pub read_keys : Bytes → Option (List Bytes)
  pub read_transaction : Bytes → Option Bytes
  pub read_hash : Bytes → Option Bytes
  pub read_set_ledger_entry : Bytes → Option SetLedgerEntryParams
  pub read_set_storage : Bytes → Option SetStorageParams
  pub read_set_code : Bytes → Option SetCodeParams
  pub read_set_balance : Bytes → Option SetBalanceParams
  pub read_etch : Bytes → Option EtchParams
  pub read_close_ledgers : Bytes → Option CloseLedgersParams
  pub server_version : Bytes

-- The range of ledgers asked for, which is only read: it may be left out.
unfoldable pub ledger_range : (Bytes → Option (Unit {0})) → Bytes → Option (Unit {0})
ledger_range read params = if bytes_eq params (codes "null") then some tt else read params

-- The parameters of `fork_closeLedgers`, which may be left out.
unfoldable pub close_ledgers_params :
    (Bytes → Option CloseLedgersParams) → Bytes → Option CloseLedgersParams
close_ledgers_params read params =
    if bytes_eq params (codes "null")
    then some (record { ledgers = none; timestamp_advance_seconds = none })
    else read params

-- Tries the methods in order.
unfoldable pub route {ℓ} : {A : Type ℓ} → Bytes → List (Bytes × A) → Option A
route method [] = none
route method ((name, handler) ∷ rest) =
    if bytes_eq name method then some handler else route method rest

module _ (w : World) (wire : Wire) (outside : Outside) (encoders : Encoders) (readers : Readers)
    (now : ℕ) where
  unfoldable pub handle_get_version_info : Rpc VersionInfoResponse
  handle_get_version_info = do
    reply ← send w wire now as_network Command.get_network
    respond (record {
      version = readers.server_version;
      commit_hash = codes "unknown";
      build_timestamp = codes "unknown";
      captive_core_version = codes "n/a (forked-RPC mode)";
      protocol_version = reply.protocol_version;
    })

  -- `serde_json::from_value(params)?`, then the handler, then `to_value`
  unfoldable pub with_params : {A B : Type 0} → (B → Body) → Option A → (A → Rpc B) → Rpc Body
  with_params wrap read handler = do
    params ← or_refuse JsonRpcError.invalid_params read
    body ← handler params
    respond (wrap body)

  unfoldable pub without_params : {B : Type 0} → (B → Body) → Rpc B → Rpc Body
  without_params wrap handler = do body ← handler; respond (wrap body)

  unfoldable pub methods : Bytes → List (Bytes × Rpc Body)
  methods params =
      (codes "getHealth", without_params Body.health (handle_get_health w wire now))
      ∷ (codes "getVersionInfo", without_params Body.version_info handle_get_version_info)
      ∷ (codes "getNetwork", without_params Body.network (handle_get_network w wire now))
      ∷ (
        codes "getLatestLedger",
        without_params Body.latest_ledger (handle_get_latest_ledger w wire now),
      )
      ∷ (
        codes "getLedgers",
        with_params Body.ledgers (ledger_range readers.read_ledger_range params)
            (λ _. handle_get_ledgers w wire now),
      )
      ∷ (
        codes "getLedgerEntries",
        with_params Body.ledger_entries (readers.read_keys params)
            (handle_get_ledger_entries w wire now),
      )
      ∷ (
        codes "simulateTransaction",
        with_params Body.simulated (readers.read_transaction params)
            (handle_simulate_transaction w wire encoders now),
      )
      ∷ (
        codes "sendTransaction",
        with_params Body.sent (readers.read_transaction params)
            (handle_send_transaction w wire now),
      )
      ∷ (
        codes "getTransaction",
        with_params Body.transaction (readers.read_hash params)
            (handle_get_transaction w wire encoders now),
      )
      ∷ (
        codes "fork_setLedgerEntry",
        with_params Body.entry_set (readers.read_set_ledger_entry params)
            (λ p. handle_fork_set_ledger_entry w wire now p.key p.entry p.live_until_ledger_seq),
      )
      ∷ (
        codes "fork_setStorage",
        with_params Body.entry_set (readers.read_set_storage params)
            (handle_fork_set_storage w wire outside now),
      )
      ∷ (
        codes "fork_setCode",
        with_params Body.code_set (readers.read_set_code params)
            (handle_fork_set_code w wire outside now),
      )
      ∷ (
        codes "fork_setBalance",
        with_params Body.balance_set (readers.read_set_balance params)
            (handle_fork_set_balance w wire outside now),
      )
      ∷ (
        codes "fork_etch",
        with_params Body.code_set (readers.read_etch params) (handle_fork_etch w wire outside now),
      )
      ∷ (
        codes "fork_closeLedgers",
        with_params Body.ledgers_closed (close_ledgers_params readers.read_close_ledgers params)
            (λ p. handle_fork_close_ledgers w wire now p.ledgers p.timestamp_advance_seconds),
      )
      ∷ []

  unfoldable pub dispatch : Bytes → Bytes → Rpc Body
  dispatch method params = elim (route method (methods params)) [
    | some handler ↦ handler
    | none ↦ or_refuse JsonRpcError.method_not_found none
  ]

  unfoldable pub jsonrpc_handler : JsonRpcRequest → Option Worker → HttpReply × Option Worker
  jsonrpc_handler req s =
      let (result, t) = dispatch req.method req.params s in
      if bytes_eq req.jsonrpc (codes "2.0")
      then (HttpReply.json_rpc req.id result, t)
      else (HttpReply.bad_request, s)
