-- ===== src/Actor.antt =====
-- src/server/actor.rs: the worker that owns the environment and runs the commands one by one.
pub mod Host
pub mod Messages
pub mod Simulation
pub mod Submission
pub mod Resolve
pub mod Send
pub mod Receipts
pub mod Clock
pub mod Loop
pub mod Sample
mod Examples
use soroban_fork.Prelude.{
  ℕ, zero, suc, ◌+◌, ◌-◌, ◌/◌, ◌%◌, ◌^◌, Bool, Option, none, some, List, [], ◌∷◌, ◌++◌, codes,
  length, if◌then◌else◌, ltb, bytes_eq, bytes_eq_iff,
}
use soroban_fork.Prelude.Int.{ℤ, pos, negsuc, ◌+ℤ◌}
use soroban_fork.Prelude.Outcome.{Outcome, ok, panic, ◌>>=◌}
use soroban_fork.Prelude.Assoc.{Eq, lookup, insert}
use soroban_fork.Prelude.Word.{saturating_add_u32}
use soroban_fork.Prelude.Decimal.{decimal}
use soroban_fork.Xdr.{Bytes, ScVal}
use soroban_fork.Ledger.{LedgerKey, LedgerEntry, ledger_key_eq}
use soroban_fork.Source.{
  Source, LedgerEntryChange, EntryWithLiveUntil, get, set_entry, apply_changes, bump_account_seq,
}
use soroban_fork.Fees.{FeeConfiguration}
use soroban_fork.Env.{
  LedgerInfo, ForkedEnv, ledger_sequence, ledger_close_time, warp, fee_configuration,
}
use soroban_fork.Hex.{hex_encode}
use soroban_fork.Tx.{HostFunction, TransactionEnvelope, TaggedTransaction}
use soroban_fork.Actor.Host.{
  World, Result, success, error, Recording, HostOutput, SorobanResources, TransactionResources,
  run_host,
}
use soroban_fork.Actor.Messages.{
  Command, Reply, NetworkReply, LatestLedgerReply, LedgersPageReply, LedgerEntriesReply,
  SimulationReply, TxReceipt, SendReply, CloseLedgersReply, ResolvedEntry,
}
use soroban_fork.Actor.Simulation.{resolve_ledger_entries, simulate_transaction}
use soroban_fork.Actor.Submission.{send_transaction}

instance abbrev pub bytes_key_eq : Eq Bytes
bytes_key_eq = record { beq = bytes_eq; beq_iff = bytes_eq_iff }

-- The worker thread's state.
pub record Worker : Type 0 where
  pub env : ForkedEnv
  pub receipts : List (Bytes × TxReceipt)

pub get_network_reply : ForkedEnv → NetworkReply
get_network_reply env = record {
  passphrase = elim env.passphrase [
    | none ↦ codes "Forked Soroban Network (custom network_id)"
    | some p ↦ p
  ];
  protocol_version = env.protocol_version;
  network_id_hex = hex_encode env.network_id;
}

unfoldable pub get_latest_ledger_reply : ForkedEnv → LatestLedgerReply
get_latest_ledger_reply env = record {
  sequence = ledger_sequence env;
  protocol_version = env.protocol_version;
  id = codes "forked-ledger-" ++ decimal 10 (ledger_sequence env);
}

module _ (w : World) where
  -- One round of the worker's loop.
  unfoldable pub step : ℕ → Worker → Command → Outcome (Reply × Worker)
  unfolding get_network_reply get_latest_ledger_reply
  step now s Command.get_network = ok (Reply.network (get_network_reply s.env), s)
  step now s Command.get_latest_ledger = ok (Reply.latest_ledger (get_latest_ledger_reply s.env), s)
  step now s Command.get_ledgers_page = ok (
    Reply.ledgers_page
        (record { sequence = ledger_sequence s.env; close_time = ledger_close_time s.env }),
    s,
  )
  step now s (Command.get_ledger_entries keys) = do
    (entries, t) ← resolve_ledger_entries w keys s.env.source
    ok (
      Reply.ledger_entries (record { entries = entries; latest_ledger = ledger_sequence s.env }),
      record s { env = record s.env { source = t } },
    )
  step now s (Command.simulate_tx f account transaction_size_bytes) = do
    (reply, env) ← simulate_transaction w s.env f account transaction_size_bytes
    ok (Reply.simulated reply, record s { env = env })
  step now s (Command.send_tx envelope f account) = do
    (reply, env) ← send_transaction w now s.env envelope f account
    ok (
      Reply.sent reply,
      record { env = env; receipts = insert reply.hash reply.receipt s.receipts },
    )
  step now s (Command.get_transaction hash) = ok (Reply.transaction (lookup hash s.receipts), s)
  step now s (Command.set_ledger_entry k e live_until) = do
    t ← set_entry w.codec s.env.source k e live_until
    ok (Reply.entry_set, record s { env = record s.env { source = t } })
  step now s (Command.close_ledgers ledgers seconds) =
      let env = warp s.env ledgers seconds in
      ok (
        Reply.ledgers_closed
            (record { new_sequence = ledger_sequence env; new_close_time = ledger_close_time env }),
        record s { env = env },
      )

  -- The loop over the queue, each command with the time at which it runs. A panic kills the thread:
  -- the commands after it get no reply.
  unfoldable pub worker_loop : Worker → List (ℕ × Command) → List Reply × Option Worker
  worker_loop s [] = ([], some s)
  worker_loop s ((now, c) ∷ cs) = elim (step now s c) [
    | panic ↦ ([], none)
    | ok (reply, t) ↦ let (replies, final) = worker_loop t cs in (reply ∷ replies, final)
  ]
