-- ===== src/Handlers/Commands.antt =====
-- src/server/handlers.rs: the methods sendTransaction, fork_setLedgerEntry and fork_closeLedgers.
use soroban_fork.Prelude.{ℕ, ◌*◌, Bool, true, false, Option, none, some, List, [], ◌∷◌}
use soroban_fork.Xdr.{Bytes}
use soroban_fork.Tx.{
  HostFunction, MuxedAccount, OperationBody, Operation, Transaction, TransactionEnvelope,
}
use soroban_fork.Hex.{hex_lower}
use soroban_fork.Actor.Host.{World, success, error}
use soroban_fork.Actor.Messages.{Command, SendReply}
use soroban_fork.Handlers.{
  JsonRpcError, Rpc, ◌>>=◌, respond, or_refuse, Wire, to_text, as_latest_ledger, as_ledgers_page,
  as_sent, as_entry_set, as_ledgers_closed, send,
}

pub record SendTransactionResponse : Type 0 where
  pub is_success : Bool
  pub hash : Bytes
  pub latest_ledger : ℕ
  pub latest_ledger_close_time : Bytes
  pub envelope_xdr : Bytes
  pub error_message : Option Bytes
  pub applied_changes : ℕ

pub record CloseLedgersResponse : Type 0 where
  pub new_sequence : ℕ
  pub new_close_time : Bytes

-- The operations and the source account of the inner V1 transaction.
unfoldable pub inner_transaction : TransactionEnvelope → Option Transaction
inner_transaction (TransactionEnvelope.tx_v0 n) = none
inner_transaction (TransactionEnvelope.tx t signatures) = some t
inner_transaction (TransactionEnvelope.tx_fee_bump fb signatures) = some fb.inner_tx

pub account_of : MuxedAccount → Bytes
account_of (MuxedAccount.ed25519 key) = key
account_of (MuxedAccount.muxed_ed25519 id key) = key

unfoldable pub extract_op : MuxedAccount → Operation → Option (HostFunction × Bytes)
unfolding account_of
extract_op source op = elim op.op_body [
  | OperationBody.other_operation n ↦ none
  | OperationBody.invoke_host_function f ↦ elim op.source_account [
    | some own ↦ some (f, account_of own)
    | none ↦ some (f, account_of source)
  ]
]

unfoldable pub extract_single : MuxedAccount → List Operation → Option (HostFunction × Bytes)
unfolding extract_op
extract_single source [] = none
extract_single source (op ∷ []) = extract_op source op
extract_single source (op ∷ _ ∷ _) = none

-- `none` is `invalid_params`.
unfoldable pub extract_invoke_op : TransactionEnvelope → Option (HostFunction × Bytes)
unfolding inner_transaction extract_single
extract_invoke_op env = elim (inner_transaction env) [
  | none ↦ none
  | some t ↦ extract_single t.source_account t.operations
]

module _ (w : World) (wire : Wire) (now : ℕ) where
  unfoldable pub send_response : Bytes → SendReply → ℕ → ℕ → SendTransactionResponse
  send_response transaction sent sequence close_time = record {
    is_success = elim sent.receipt.tx_result [ success v ↦ true | error e ↦ false ];
    hash = hex_lower sent.hash;
    latest_ledger = sequence;
    latest_ledger_close_time = to_text close_time;
    envelope_xdr = transaction;
    error_message = elim sent.receipt.tx_result [ success v ↦ none | error e ↦ some e ];
    applied_changes = sent.receipt.applied_changes;
  }

  unfoldable pub handle_send_transaction : Bytes → Rpc SendTransactionResponse
  unfolding send_response
  handle_send_transaction transaction = do
    envelope_bytes ← or_refuse JsonRpcError.invalid_params (wire.b64_decode transaction)
    envelope ← or_refuse JsonRpcError.invalid_params (w.decode_envelope envelope_bytes)
    (f, account) ← or_refuse JsonRpcError.invalid_params (extract_invoke_op envelope)
    sent ← send w wire now as_sent (Command.send_tx envelope_bytes f account)
    latest ← send w wire now as_latest_ledger Command.get_latest_ledger
    page ← send w wire now as_ledgers_page Command.get_ledgers_page
    respond (send_response transaction sent latest.sequence page.close_time)

  -- The response's `ok` is always true: the response is its latest ledger.
  unfoldable pub handle_fork_set_ledger_entry : Bytes → Bytes → Option ℕ → Rpc ℕ
  handle_fork_set_ledger_entry key_text entry_text live_until = do
    key_bytes ← or_refuse JsonRpcError.invalid_params (wire.b64_decode key_text)
    key ← or_refuse JsonRpcError.invalid_params (w.codec.decode_key key_bytes)
    entry_bytes ← or_refuse JsonRpcError.invalid_params (wire.b64_decode entry_text)
    entry ← or_refuse JsonRpcError.invalid_params (w.codec.decode entry_bytes)
    _ ← send w wire now as_entry_set (Command.set_ledger_entry key entry live_until)
    latest ← send w wire now as_latest_ledger Command.get_latest_ledger
    respond latest.sequence

  pub seconds_or_default : ℕ → Option ℕ → ℕ
  seconds_or_default ledgers none = ledgers * 5
  seconds_or_default ledgers (some seconds) = seconds

  pub ledgers_or_default : Option ℕ → ℕ
  ledgers_or_default none = 1
  ledgers_or_default (some ledgers) = ledgers

  unfoldable pub handle_fork_close_ledgers : Option ℕ → Option ℕ → Rpc CloseLedgersResponse
  unfolding seconds_or_default ledgers_or_default
  handle_fork_close_ledgers ledgers seconds = do
    let count = ledgers_or_default ledgers
    reply ←
        send w wire now as_ledgers_closed
          (Command.close_ledgers count (seconds_or_default count seconds))
    respond (record {
      new_sequence = reply.new_sequence;
      new_close_time = to_text reply.new_close_time;
    })
