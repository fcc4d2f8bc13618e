-- ===== src/Actor/Examples.antt =====
-- The theorems on the worker in a small world: the host reads an account and writes another.
use soroban_fork.Prelude.{
  ℕ, ◌≡◌, ◌≢◌, ◌≤◌, refl, min, none, some, List, [], ◌∷◌, arith, codes, ℕ_discrete, bytes_eq,
}
use soroban_fork.Prelude.Int.{pos, ◌+ℤ◌}
use soroban_fork.Prelude.Outcome.{ok}
use soroban_fork.Prelude.Word.{u32_max}
use soroban_fork.Prelude.Assoc.{lookup, insert}
use soroban_fork.Xdr.{Bytes, u32}
use soroban_fork.Ledger.{LedgerKey, LedgerEntry, ledger_key_eq, key_eq}
use soroban_fork.Source.{Source, FetchMode, get, apply_changes, bump_account_seq}
use soroban_fork.Source.View.{Extends}
use soroban_fork.Source.Writes.{writes, last_write, or_before}
use soroban_fork.Source.Sample.{sample_codec, sample_codec-IsCodec, alice, alice_entry, alice_bytes}
use soroban_fork.Env.{ledger_sequence, ledger_close_time, warp, fee_configuration}
use soroban_fork.Actor.{Worker, step, worker_loop, bytes_key_eq}
use soroban_fork.Actor.Submission.{send_transaction}
use soroban_fork.Actor.Simulation.{
  resolve_ledger_entries, simulate_transaction, simulation_reply, compute_min_resource_fee,
  with_key,
}
use soroban_fork.Actor.Host.{HostOutput, Recording, success, error, run_host}
use soroban_fork.Actor.Messages.{Command, Reply, SendReply, ResolvedEntry, SimulationReply}
use soroban_fork.Actor.Resolve.{
  Keeps, AnsweredBy, resolve_ledger_entries_lem, simulate_transaction-Keeps,
}
use soroban_fork.Actor.Send.{send_transaction-error, send_transaction-success}
use soroban_fork.Actor.Receipts.{IsHashOf, get_transaction-send_tx}
use soroban_fork.Actor.Clock.{IsSound}
use soroban_fork.Actor.Loop.{worker_loop-IsSound}
use soroban_fork.Actor.Sample.{
  alice_key, bob_key, resources, sample_world, env0, env1, env2, invocation, upload,
}

abbrev batch : List LedgerKey
batch = bob_key ∷ alice_key ∷ []

abbrev answers : List ResolvedEntry
answers = none ∷ some (alice_key, alice_entry, none) ∷ []

abbrev resolved : Source
resolved = record {
  cache = (bob_key, none) ∷ (alice_key, some (alice_bytes, none)) ∷ [];
  fetches = 2;
  fetch_mode = FetchMode.strict;
}

batch_answered : resolve_ledger_entries sample_world batch env0.source ≡ ok (answers, resolved)
unfolding sample_world sample_codec resolve_ledger_entries with_key get lookup insert key_eq
    ℕ_discrete
batch_answered = refl

sample_laws :
    (e : LedgerEntry) (b : Bytes)
    → sample_world.codec.encode e ≡ some b
    → sample_world.codec.decode b ≡ some e
unfolding sample_world
sample_laws = sample_codec-IsCodec

resolve_ledger_entries_lem_example :
    AnsweredBy sample_world resolved batch answers × Extends env0.source resolved
resolve_ledger_entries_lem_example =
    resolve_ledger_entries_lem sample_world batch env0.source sample_laws batch_answered

abbrev simulation : SimulationReply
simulation = record {
  sim_result = success (u32 1);
  auth = [];
  resources = resources;
  contract_events = 4 ∷ [];
  diagnostic_events = [];
  latest_ledger = 1000;
  min_resource_fee = some (pos 100);
  mem_bytes = some 900;
}

simulated : simulate_transaction sample_world env0 invocation alice 300 ≡ ok (simulation, env1)
unfolding sample_world sample_codec simulate_transaction simulation_reply compute_min_resource_fee
    fee_configuration run_host get lookup insert key_eq ℕ_discrete ledger_sequence ◌+ℤ◌
simulated = refl

simulate_transaction-Keeps_example :
    Keeps sample_world env0 env1 × (simulation.latest_ledger ≡ env0.info.sequence_number)
simulate_transaction-Keeps_example =
    simulate_transaction-Keeps sample_world env0 invocation alice 300 simulated

abbrev envelope : Bytes
envelope = 1 ∷ 1 ∷ []

abbrev paid : SendReply
paid = record {
  hash = 99 ∷ 8 ∷ 7 ∷ [];
  receipt = record {
    tx_result = success (u32 1);
    envelope_bytes = envelope;
    ledger = 1000;
    created_at = 1750000123;
    applied_changes = 1;
  };
}

abbrev failed : SendReply
failed = record {
  hash = 99 ∷ 8 ∷ 7 ∷ [];
  receipt = record {
    tx_result = error (codes "host error: trapped");
    envelope_bytes = envelope;
    ledger = 1000;
    created_at = 1750000123;
    applied_changes = 0;
  };
}

sent_paid :
    send_transaction sample_world 1750000123 env0 envelope invocation alice ≡ ok (paid, env2)
unfolding sample_world sample_codec send_transaction run_host get lookup insert key_eq ℕ_discrete
    apply_changes bump_account_seq ledger_sequence
sent_paid = refl

sent_failed :
    send_transaction sample_world 1750000123 env0 envelope upload alice ≡ ok (failed, env1)
unfolding sample_world sample_codec send_transaction run_host get lookup insert key_eq ℕ_discrete
    ledger_sequence
sent_failed = refl

send_transaction-error_example : (failed.receipt.applied_changes ≡ 0) × Keeps sample_world env0 env1
send_transaction-error_example =
    send_transaction-error sample_world 1750000123 env0 envelope upload alice sent_failed refl

send_transaction-success_example :
    (out : HostOutput) × (s : Source) × (rec : Recording) × (run_host sample_world.codec
        sample_world.client
        (sample_world.host invocation alice env0.info)
        env0.source
      ≡ ok (out, s))
    × (out.recorded ≡ success rec)
    × (rec.invoke_result ≡ success (u32 1))
    × (paid.receipt.applied_changes ≡ min (writes sample_world.codec rec.ledger_changes) u32_max)
    × (paid.receipt.ledger ≡ env0.info.sequence_number)
    × ((j : LedgerKey)
        → LedgerKey.account alice ≢ j
        → lookup j env2.source.cache
          ≡ or_before sample_world.codec
              (last_write sample_world.codec j rec.ledger_changes)
              (lookup j s.cache))
send_transaction-success_example =
    send_transaction-success sample_world 1750000123 env0 envelope invocation alice sent_paid refl

abbrev worker0 : Worker
worker0 = record { env = env0; receipts = [] }

abbrev worker2 : Worker
worker2 = record { env = env2; receipts = (99 ∷ 8 ∷ 7 ∷ [], paid.receipt) ∷ [] }

abbrev send_command : Command
send_command = Command.send_tx envelope invocation alice

send_step : step sample_world 1750000123 worker0 send_command ≡ ok (Reply.sent paid, worker2)
unfolding sample_world sample_codec step send_transaction run_host get lookup insert key_eq
    ℕ_discrete apply_changes bump_account_seq ledger_sequence
send_step = refl

get_transaction-send_tx_example :
    (step sample_world 1750000999 worker2 (Command.get_transaction paid.hash)
      ≡ ok (Reply.transaction (some paid.receipt), worker2))
    × IsHashOf sample_world worker0.env.network_id envelope paid.hash
    × ((hash : Bytes)
        → paid.hash ≢ hash
        → lookup hash worker2.receipts ≡ lookup hash worker0.receipts)
get_transaction-send_tx_example =
    get_transaction-send_tx sample_world 1750000123 1750000999 worker0 envelope invocation alice
      send_step

abbrev close : Command
close = Command.close_ledgers 3 15

abbrev worker3 : Worker
worker3 = record worker2 {
  env = record env2 { info = record env2.info { sequence_number = 1003; timestamp = 1750000015 } };
}

abbrev closed_reply : Reply
closed_reply = Reply.ledgers_closed (record { new_sequence = 1003; new_close_time = 1750000015 })

closing : step sample_world 0 worker2 close ≡ ok (closed_reply, worker3)
unfolding step warp ledger_sequence ledger_close_time
closing = refl

stored : lookup paid.hash worker2.receipts ≡ some paid.receipt
unfolding lookup bytes_eq
stored = refl

worker0-IsSound : IsSound sample_world worker0
worker0-IsSound = record {
  clock = record { sequence_fits = omega arith; timestamp_fits = omega arith };
  past = tt;
}

abbrev queue : List (ℕ × Command)
queue = (1750000123, send_command) ∷ (1750000124, close) ∷ []

queue_served : (worker_loop sample_world worker0 queue).1 ≡ some worker3
unfolding sample_world sample_codec worker_loop step send_transaction run_host get lookup insert
    key_eq ℕ_discrete apply_changes bump_account_seq ledger_sequence ledger_close_time warp
queue_served = refl

worker_loop-IsSound_example :
    IsSound sample_world worker3
    × (worker0.env.info.sequence_number ≤ worker3.env.info.sequence_number)
worker_loop-IsSound_example =
    worker_loop-IsSound sample_world queue worker0 queue_served worker0-IsSound
