-- ===== src/Actor/Submission.antt =====
-- src/server/actor.rs: `canonical_tx_hash` and `send_transaction`.
use soroban_fork.Prelude.{ℕ, Option, none, some, ◌++◌, codes}
use soroban_fork.Prelude.Outcome.{Outcome, ok, ◌>>=◌}
use soroban_fork.Xdr.{Bytes, ScVal}
use soroban_fork.Ledger.{ledger_key_eq}
use soroban_fork.Source.{Source, apply_changes, bump_account_seq}
use soroban_fork.Env.{ForkedEnv, ledger_sequence}
use soroban_fork.Tx.{HostFunction, TransactionEnvelope, TaggedTransaction}
use soroban_fork.Actor.Host.{World, Result, success, error, Recording, run_host}
use soroban_fork.Actor.Messages.{SendReply}
use soroban_fork.Actor.Simulation.{host_error}

module _ (w : World) where
  unfoldable pub tagged : TransactionEnvelope → Option TaggedTransaction
  tagged (TransactionEnvelope.tx t signatures) = some (TaggedTransaction.tagged_tx t)
  tagged (TransactionEnvelope.tx_fee_bump t signatures) = some (TaggedTransaction.tagged_fee_bump t)
  tagged (TransactionEnvelope.tx_v0 n) = none

  -- `none` for each of the errors, which the caller drops.
  unfoldable pub canonical_tx_hash : Bytes → Bytes → Option Bytes
  unfolding tagged
  canonical_tx_hash envelope network_id = elim (w.decode_envelope envelope) [
    | none ↦ none
    | some decoded ↦ elim (tagged decoded) [
      | none ↦ none
      | some t ↦ elim (w.encode_payload network_id t) [
        | none ↦ none
        | some payload ↦ some (w.sha256 payload)
      ]
    ]
  ]

  unfoldable pub tx_hash : Bytes → Bytes → Bytes
  unfolding canonical_tx_hash
  tx_hash envelope network_id = elim (canonical_tx_hash envelope network_id) [
    | some h ↦ h
    | none ↦ w.sha256 envelope
  ]

  -- The writes of an invocation and its account's sequence number, for a success; the result, the count
  -- of changes, and the source after them.
  unfoldable pub commit : Bytes → Result Recording → Source → Outcome ((Result ScVal × ℕ) × Source)
  unfolding host_error
  commit account (error e) s = ok ((error (codes "recording-mode error: " ++ e), 0), s)
  commit account (success rec) s = elim rec.invoke_result [
    | success v ↦ do
      (t, applied) ← apply_changes w.codec s rec.ledger_changes
      ok ((success v, applied), (bump_account_seq w.codec t account).0)
    | error e ↦ ok ((host_error (error e), 0), s)
  ]

  -- `now` is the clock's time, 0 before the epoch.
  unfoldable pub send_transaction :
      ℕ → ForkedEnv → Bytes → HostFunction → Bytes → Outcome (SendReply × ForkedEnv)
  unfolding commit tx_hash
  send_transaction now env envelope f account = do
    (out, s) ← run_host w.codec w.client (w.host f account env.info) env.source
    ((result, applied), t) ← commit account out.recorded s
    ok (
      record {
        hash = tx_hash envelope env.network_id;
        receipt = record {
          tx_result = result;
          envelope_bytes = envelope;
          ledger = ledger_sequence env;
          created_at = now;
          applied_changes = applied;
        };
      },
      record env { source = t },
    )
