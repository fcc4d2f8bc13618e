-- ===== src/Handlers/Receipt.antt =====
-- What getTransaction tells of the receipt that the worker has under a hash.
use soroban_fork.Prelude.{ℕ, zero, suc, ◌≡◌, refl, [], ◌∷◌, Option, none, some, inl, inr}
use soroban_fork.Prelude.Assoc.{lookup}
use soroban_fork.Xdr.{Bytes, ScVal}
use soroban_fork.Env.{ledger_sequence}
use soroban_fork.Prelude.Decimal.{decimal}
use soroban_fork.Hex.{parse_hex32}
use soroban_fork.Actor.{Worker, step, bytes_key_eq, get_latest_ledger_reply}
use soroban_fork.Actor.Host.{World, Result, success, error, Result-cases}
use soroban_fork.Actor.Messages.{Command, TxReceipt}
use soroban_fork.Handlers.{answered, Wire, send}
use soroban_fork.Handlers.Installed.{send-get_latest_ledger}
use soroban_fork.Handlers.Replies.{
  as_transaction, result_of, zero_hash, build_result_xdrs, found_response, transaction_response,
  handle_get_transaction,
}
use soroban_fork.Handlers.Responses.{
  Encoders, InvokeHostFunctionResult, TransactionResult, TransactionMeta, TransactionStatus,
  GetTransactionResponse,
}

-- The encoders' results, which all succeed.
pub record Encodings (encoders : Encoders) : Type 0 where
  pub of_scval : ScVal → Bytes
  pub of_result : TransactionResult → Bytes
  pub of_meta : TransactionMeta → Bytes
  pub scval_encodes : (v : ScVal) → encoders.scval_to_xdr v ≡ some (of_scval v)
  pub result_encodes : (r : TransactionResult) → encoders.result_to_xdr r ≡ some (of_result r)
  pub meta_encodes : (m : TransactionMeta) → encoders.meta_to_xdr m ≡ some (of_meta m)

abbrev pub zeros : ℕ → Bytes
zeros zero = []
zeros (suc n) = 0 ∷ zeros n

-- The results that a call's outcome has: its one operation succeeded, under a hash of 32 zeros, or trapped.
abbrev result_success : TransactionResult
result_success = TransactionResult.tx_success (InvokeHostFunctionResult.success_of (zeros 32) ∷ [])

abbrev result_trapped : TransactionResult
result_trapped = TransactionResult.tx_failed (InvokeHostFunctionResult.trapped ∷ [])

module _ (wire : Wire) (encoders : Encoders) (encodings : Encodings encoders) where
  -- The outcome of a call that went through is its value, and of a failed one its message; each has a result and a meta.
  abbrev pub Tells : Result ScVal → GetTransactionResponse → Type 0
  Tells (success v) response =
      (response.status ≡ TransactionStatus.succeeded)
      × (response.return_value_xdr ≡ some (wire.b64_encode (encodings.of_scval v)))
      × (response.result_xdr ≡ some (wire.b64_encode (encodings.of_result result_success)))
      × (response.result_meta_xdr
          ≡ some (wire.b64_encode (encodings.of_meta (record { return_value = v }))))
      × (response.error_message ≡ none)
  Tells (error message) response =
      (response.status ≡ TransactionStatus.failed)
      × (response.return_value_xdr ≡ none)
      × (response.result_xdr ≡ some (wire.b64_encode (encodings.of_result result_trapped)))
      × (response.result_meta_xdr
          ≡ some (wire.b64_encode (encodings.of_meta (record { return_value = ScVal.void }))))
      × (response.error_message ≡ some message)

  abbrev pub Reports : Option TxReceipt → GetTransactionResponse → Type 0
  Reports none response =
      (response.status ≡ TransactionStatus.not_found)
      × (response.ledger ≡ none)
      × (response.created_at ≡ none)
      × (response.envelope_xdr ≡ none)
      × (response.return_value_xdr ≡ none)
      × (response.result_xdr ≡ none)
      × (response.result_meta_xdr ≡ none)
      × (response.error_message ≡ none)
      × (response.applied_changes ≡ none)
  Reports (some r) response =
      Tells r.tx_result response
      × (response.ledger ≡ some r.ledger)
      × (response.created_at ≡ some (decimal 20 r.created_at))
      × (response.envelope_xdr ≡ some (wire.b64_encode r.envelope_bytes))
      × (response.applied_changes ≡ some r.applied_changes)

module _ (w : World) (wire : Wire) (encoders : Encoders) (encodings : Encodings encoders)
    (now : ℕ) where
  found_response-Reports :
      (r : TxReceipt) (latest : ℕ) (s : Worker)
      → (response : GetTransactionResponse) × (found_response w wire encoders now r latest (some s)
          ≡ (answered response, some s))
        × Reports wire encoders encodings (some r) response
        × (response.latest_ledger ≡ latest)
  unfolding found_response build_result_xdrs result_of zero_hash
  found_response-Reports r latest s = elim (Result-cases r.tx_result) [
    | inl (v, e) ↦
        rw
          (
            e,
            found_response,
            encodings.scval_encodes v,
            encodings.meta_encodes (record { return_value = v }),
            encodings.result_encodes result_success,
          )
          (_, refl, ((refl, refl, refl, refl, refl), refl, refl, refl, refl), refl)
    | inr (m, e) ↦
        rw
          (
            e,
            found_response,
            encodings.meta_encodes (record { return_value = ScVal.void }),
            encodings.result_encodes result_trapped,
          )
          (_, refl, ((refl, refl, refl, refl, refl), refl, refl, refl, refl), refl)
  ]

  transaction_response-Reports :
      (r : Option TxReceipt) (latest : ℕ) (s : Worker)
      → (response : GetTransactionResponse) × (transaction_response w wire encoders now r latest
            (some s)
          ≡ (answered response, some s))
        × Reports wire encoders encodings r response
        × (response.latest_ledger ≡ latest)
  unfolding transaction_response
  transaction_response-Reports none latest s =
      (_, refl, (refl, refl, refl, refl, refl, refl, refl, refl, refl), refl)
  transaction_response-Reports (some r) latest s = found_response-Reports r latest s

  send-get_transaction :
      (hash : Bytes) (s : Worker)
      → send w wire now as_transaction (Command.get_transaction hash) (some s)
        ≡ (answered (lookup hash s.receipts), some s)
  unfolding send step as_transaction
  send-get_transaction hash s = refl

  latest_sequence : (s : Worker) → (get_latest_ledger_reply s.env).sequence ≡ ledger_sequence s.env
  unfolding get_latest_ledger_reply
  latest_sequence s = refl

  -- A hash in hexadecimal is looked up among the worker's receipts, whose parts all encode: the method answers what
  -- the receipt says, or that there is none, with the latest ledger, and the worker is as before.
  pub handle_get_transaction_lem :
      (hash_text : Bytes) (s : Worker) {hash : Bytes}
      → parse_hex32 hash_text ≡ some hash
      → (response : GetTransactionResponse) × (handle_get_transaction w wire encoders now hash_text
            (some s)
          ≡ (answered response, some s))
        × Reports wire encoders encodings (lookup hash s.receipts) response
        × (response.latest_ledger ≡ ledger_sequence s.env)
  unfolding handle_get_transaction
  handle_get_transaction_lem hash_text s {hash} parses =
      rw
        (
          parses,
          send-get_transaction hash s,
          send-get_latest_ledger w wire now s,
          latest_sequence s,
        )
        (transaction_response-Reports (lookup hash s.receipts) (ledger_sequence s.env) s)
