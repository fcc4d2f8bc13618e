-- ===== src/Handlers/Replies.antt =====
-- handle_simulate_transaction and handle_get_transaction of src/server/handlers.rs, with the encodings of their replies.
use soroban_fork.Prelude.{
  ℕ, suc, ◌++◌, Bool, true, false, Option, none, some, List, [], ◌∷◌, length, leb,
}
use soroban_fork.Prelude.Int.{ℤ, pos, negsuc}
use soroban_fork.Prelude.Word.{u32_max}
use soroban_fork.Xdr.{Bytes, ScVal}
use soroban_fork.Hex.{parse_hex32}
use soroban_fork.Prelude.Decimal.{decimal}
use soroban_fork.Actor.Host.{World, success, error, SorobanResources}
use soroban_fork.Actor.Messages.{Command, Reply, SimulationReply, TxReceipt}
use soroban_fork.Handlers.{
  Rpc, ◌>>=◌, respond, or_refuse, JsonRpcError, Wire, send, as_latest_ledger, to_text,
}
use soroban_fork.Handlers.Commands.{extract_invoke_op}
use soroban_fork.Handlers.Token.{as_simulated}
use soroban_fork.Handlers.Responses.{
  DiagnosticEvent, InvokeHostFunctionResult, TransactionResult, Encoders, SimulationCost,
  SimulateTransactionResponse, TransactionStatus, GetTransactionResponse,
}

-- The decimal text of an i64.
unfoldable pub signed_text : ℤ → Bytes
signed_text (pos n) = decimal 19 n
signed_text (negsuc n) = b'-' ∷ decimal 19 (suc n)

unfoldable pub fee_or_zero : Option ℤ → ℤ
fee_or_zero none = pos 0
fee_or_zero (some fee) = fee

unfoldable pub as_transaction : Reply → Option (Option TxReceipt)
as_transaction (Reply.transaction r) = some r
as_transaction _ = none

-- `[0u8; 32]`
unfoldable pub zero_hash : Bytes
zero_hash =
    0 ∷ 0 ∷ 0 ∷ 0 ∷ 0 ∷ 0 ∷ 0 ∷ 0 ∷ 0 ∷ 0 ∷ 0 ∷ 0 ∷ 0 ∷ 0 ∷ 0 ∷ 0 ∷ 0 ∷ 0 ∷ 0 ∷ 0 ∷ 0 ∷ 0 ∷ 0 ∷ 0
    ∷ 0 ∷ 0 ∷ 0 ∷ 0 ∷ 0 ∷ 0 ∷ 0 ∷ 0 ∷ []

unfoldable pub result_of : Bool → TransactionResult
unfolding zero_hash
result_of true = TransactionResult.tx_success (InvokeHostFunctionResult.success_of zero_hash ∷ [])
result_of false = TransactionResult.tx_failed (InvokeHostFunctionResult.trapped ∷ [])

-- `try_into()` for the u32 that is the envelope's size
unfoldable pub fits_u32 : ℕ → Option ℕ
fits_u32 n = elim (leb n u32_max) [ true ↦ some n | false ↦ none ]

module _ (w : World) (wire : Wire) (encoders : Encoders) (now : ℕ) where
  unfoldable pub encode_list : {A : Type 0} → (A → Option Bytes) → List A → Rpc (List Bytes)
  encode_list encode [] = respond []
  encode_list encode (x ∷ xs) = do
    bytes ← or_refuse JsonRpcError.internal_error (encode x)
    rest ← encode_list encode xs
    respond (wire.b64_encode bytes ∷ rest)

  unfoldable pub cost_of : SorobanResources → Option ℕ → Option SimulationCost
  cost_of resources none = none
  cost_of resources (some mem) =
      some (record { cpu_insns = to_text resources.instructions; mem_bytes = to_text mem })

  unfoldable pub fee_text : Option ℤ → Option Bytes
  fee_text none = none
  fee_text (some fee) = some (signed_text fee)

  unfoldable pub encode_success : SimulationReply → ScVal → Rpc SimulateTransactionResponse
  encode_success reply scval = do
    scval_xdr ← or_refuse JsonRpcError.internal_error (encoders.scval_to_xdr scval)
    auth ← encode_list encoders.auth_to_xdr reply.auth
    txn_data ← or_refuse JsonRpcError.internal_error (
        encoders.data_to_xdr (record {
          resources = reply.resources;
          resource_fee = fee_or_zero reply.min_resource_fee;
        }))
    contract_events ←
        encode_list (λ e. encoders.event_to_xdr (DiagnosticEvent.wrapped e)) reply.contract_events
    diagnostic_events ←
        encode_list (λ e. encoders.event_to_xdr (DiagnosticEvent.diagnostic e))
          reply.diagnostic_events
    respond (record {
      transaction_data = some (wire.b64_encode txn_data);
      min_resource_fee = fee_text reply.min_resource_fee;
      events = some (contract_events ++ diagnostic_events);
      results = some (record { auth = auth; xdr = wire.b64_encode scval_xdr } ∷ []);
      cost = cost_of reply.resources reply.mem_bytes;
      latest_ledger = reply.latest_ledger;
      failure = none;
    })

  unfoldable pub encode_simulation_reply : SimulationReply → Rpc SimulateTransactionResponse
  encode_simulation_reply reply = elim reply.sim_result [
    | success scval ↦ encode_success reply scval
    | error message ↦ respond (record {
      transaction_data = none;
      min_resource_fee = none;
      events = none;
      results = none;
      cost = none;
      latest_ledger = reply.latest_ledger;
      failure = some message;
    })
  ]

  unfoldable pub handle_simulate_transaction : Bytes → Rpc SimulateTransactionResponse
  handle_simulate_transaction transaction = do
    envelope_bytes ← or_refuse JsonRpcError.invalid_params (wire.b64_decode transaction)
    envelope ← or_refuse JsonRpcError.invalid_params (w.decode_envelope envelope_bytes)
    size ← or_refuse JsonRpcError.invalid_params (fits_u32 (length envelope_bytes))
    (f, account) ← or_refuse JsonRpcError.invalid_params (extract_invoke_op envelope)
    reply ← send w wire now as_simulated (Command.simulate_tx f account size)
    encode_simulation_reply reply

  -- The result and the meta, in this order.
  unfoldable pub build_result_xdrs : ScVal → Bool → Rpc (Bytes × Bytes)
  build_result_xdrs return_value ok_flag = do
    meta ←
        or_refuse JsonRpcError.internal_error
          (encoders.meta_to_xdr (record { return_value = return_value }))
    result ← or_refuse JsonRpcError.internal_error (encoders.result_to_xdr (result_of ok_flag))
    respond (wire.b64_encode result, wire.b64_encode meta)

  unfoldable pub found_response : TxReceipt → ℕ → Rpc GetTransactionResponse
  found_response r latest = elim r.tx_result [
    | success scval ↦ do
      value_xdr ← or_refuse JsonRpcError.internal_error (encoders.scval_to_xdr scval)
      (result, meta) ← build_result_xdrs scval true
      respond (record {
        status = TransactionStatus.succeeded;
        latest_ledger = latest;
        ledger = some r.ledger;
        created_at = some (to_text r.created_at);
        envelope_xdr = some (wire.b64_encode r.envelope_bytes);
        return_value_xdr = some (wire.b64_encode value_xdr);
        result_xdr = some result;
        result_meta_xdr = some meta;
        error_message = none;
        applied_changes = some r.applied_changes;
      })
    | error message ↦ do
      (result, meta) ← build_result_xdrs ScVal.void false
      respond (record {
        status = TransactionStatus.failed;
        latest_ledger = latest;
        ledger = some r.ledger;
        created_at = some (to_text r.created_at);
        envelope_xdr = some (wire.b64_encode r.envelope_bytes);
        return_value_xdr = none;
        result_xdr = some result;
        result_meta_xdr = some meta;
        error_message = some message;
        applied_changes = some r.applied_changes;
      })
  ]

  unfoldable pub transaction_response : Option TxReceipt → ℕ → Rpc GetTransactionResponse
  transaction_response (some r) latest = found_response r latest
  transaction_response none latest = respond (record {
    status = TransactionStatus.not_found;
    latest_ledger = latest;
    ledger = none;
    created_at = none;
    envelope_xdr = none;
    return_value_xdr = none;
    result_xdr = none;
    result_meta_xdr = none;
    error_message = none;
    applied_changes = none;
  })

  unfoldable pub handle_get_transaction : Bytes → Rpc GetTransactionResponse
  handle_get_transaction hash_text = do
    hash ← or_refuse JsonRpcError.invalid_params (parse_hex32 hash_text)
    receipt ← send w wire now as_transaction (Command.get_transaction hash)
    latest ← send w wire now as_latest_ledger Command.get_latest_ledger
    transaction_response receipt latest.sequence
