-- ===== src/Handlers/Refusal.antt =====
-- Requests that are refused for their parameters, and the defaults of `fork_closeLedgers`.
use soroban_fork.Prelude.{ℕ, ◌≡◌, ◌+◌, ◌*◌, min, refl, Option, none, some, Option-cases, inl, inr}
use soroban_fork.Prelude.Word.{u32_max, u64_max}
use soroban_fork.Xdr.{Bytes}
use soroban_fork.Tx.{HostFunction, TransactionEnvelope}
use soroban_fork.Env.{warp, ledger_sequence, ledger_close_time}
use soroban_fork.Actor.{Worker, step}
use soroban_fork.Prelude.Decimal.{decimal}
use soroban_fork.Actor.Host.{World}
use soroban_fork.Handlers.{refused, answered, JsonRpcError, Wire, send, as_ledgers_closed}
use soroban_fork.Handlers.Commands.{
  extract_invoke_op, handle_send_transaction, handle_fork_close_ledgers,
}
use soroban_fork.Handlers.Extract.{Invokes, extract_invoke_op_lem}

module _ (w : World) (wire : Wire) (now : ℕ) where
  -- The text is the base64 of an envelope that invokes a host function.
  pub record Carries (text : Bytes) : Type 0 where
    pub raw : Bytes
    pub envelope : TransactionEnvelope
    pub function : HostFunction
    pub account : Bytes
    pub is_base64 : wire.b64_decode text ≡ some raw
    pub is_envelope : w.decode_envelope raw ≡ some envelope
    pub invokes : Invokes function account envelope

  -- A text is refused with `invalid_params`, and the worker has seen nothing of it, unless it is the base64 of an
  -- envelope whose only operation invokes a host function.
  pub handle_send_transaction-refused :
      (text : Bytes) (s : Option Worker)
      → ¬ Carries text
      → handle_send_transaction w wire now text s ≡ (refused JsonRpcError.invalid_params, s)
  unfolding handle_send_transaction
  handle_send_transaction-refused text s nothing = elim (Option-cases (wire.b64_decode text)) [
    | inl e ↦ rw e
    | inr (raw, e) ↦ elim (Option-cases (w.decode_envelope raw)) [
      | inl e' ↦ rw e (rw e')
      | inr (envelope, e') ↦ elim (Option-cases (extract_invoke_op envelope)) [
        | inl e'' ↦ rw e (rw e' (rw e''))
        | inr ((f, key), e'') ↦ absurd (
            nothing (record {
              raw = raw;
              envelope = envelope;
              function = f;
              account = key;
              is_base64 = e;
              is_envelope = e';
              invokes = (extract_invoke_op_lem envelope f key).0 e'';
            }))
      ]
    ]
  ]

  -- Closing ledgers without a number closes one, and without a time takes five seconds to each; the worker
  -- is warped by as much, and the response is its new clock, which saturates.
  pub handle_fork_close_ledgers_lem :
      (s : Worker) (count seconds : ℕ)
      → (handle_fork_close_ledgers w wire now none none (some s)
          ≡ handle_fork_close_ledgers w wire now (some 1) (some 5) (some s))
        × (handle_fork_close_ledgers w wire now (some count) none (some s)
            ≡ handle_fork_close_ledgers w wire now (some count) (some (count * 5)) (some s))
        × (handle_fork_close_ledgers w wire now (some count) (some seconds) (some s) ≡ (
          answered (record {
            new_sequence = min (s.env.info.sequence_number + count) u32_max;
            new_close_time = decimal 20 (min (s.env.info.timestamp + seconds) u64_max);
          }),
          some (record s { env = warp s.env count seconds }),
        ))
  unfolding handle_fork_close_ledgers send step ledger_sequence ledger_close_time warp
      as_ledgers_closed
  handle_fork_close_ledgers_lem s count seconds = (refl, refl, refl)
