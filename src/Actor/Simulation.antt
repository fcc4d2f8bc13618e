-- ===== src/Actor/Simulation.antt =====
-- src/server/actor.rs: `resolve_ledger_entries`, `compute_min_resource_fee` and `simulate_transaction`.
use soroban_fork.Prelude.{
  ℕ, ◌-◌, ◌%◌, ◌^◌, Option, none, some, List, [], ◌∷◌, ◌++◌, codes, length, if◌then◌else◌, ltb,
}
use soroban_fork.Prelude.Int.{ℤ, pos, negsuc, ◌+ℤ◌}
use soroban_fork.Prelude.Outcome.{Outcome, ok, ◌>>=◌}
use soroban_fork.Prelude.Word.{saturating_add_u32}
use soroban_fork.Xdr.{Bytes, ScVal}
use soroban_fork.Ledger.{LedgerKey, ledger_key_eq}
use soroban_fork.Source.{Source, EntryWithLiveUntil, get}
use soroban_fork.Fees.{FeeConfiguration}
use soroban_fork.Env.{ForkedEnv, ledger_sequence, fee_configuration}
use soroban_fork.Tx.{HostFunction}
use soroban_fork.Actor.Host.{
  World, Result, success, error, HostOutput, SorobanResources, TransactionResources, run_host,
}
use soroban_fork.Actor.Messages.{SimulationReply, ResolvedEntry}

-- `i64::saturating_add` on fees.
pub saturating_add_i64 : ℤ → ℤ → ℤ
saturating_add_i64 a b = elim (a +ℤ b) [
  | pos n ↦ if ltb n (2 ^ 63) then pos n else pos (2 ^ 63 - 1)
  | negsuc n ↦ if ltb n (2 ^ 63) then negsuc n else negsuc (2 ^ 63 - 1)
]

-- `map_err(|e| format!("host error: {e}"))`
unfoldable pub host_error : Result ScVal → Result ScVal
host_error (success v) = success v
host_error (error e) = error (codes "host error: " ++ e)

pub empty_soroban_resources : SorobanResources
empty_soroban_resources = record {
  read_only = [];
  read_write = [];
  instructions = 0;
  disk_read_bytes = 0;
  write_bytes = 0;
}

-- What a read returned, as `getLedgerEntries` carries it.
unfoldable pub with_key : LedgerKey → Option EntryWithLiveUntil → ResolvedEntry
with_key k none = none
with_key k (some (e, live_until)) = some (k, e, live_until)

module _ (w : World) where
  unfoldable pub resolve_ledger_entries :
      List LedgerKey → Source → Outcome (List ResolvedEntry × Source)
  resolve_ledger_entries [] s = ok ([], s)
  resolve_ledger_entries (k ∷ ks) s = do
    (r, t) ← get w.codec w.client s k
    (rs, u) ← resolve_ledger_entries ks t
    ok (with_key k r ∷ rs, u)

  -- The loop over the contract events: `none` when one of them fails to encode.
  pub events_size : List ℕ → ℕ → Option ℕ
  events_size [] total = some total
  events_size (e ∷ es) total = elim (w.event_size e) [
    | none ↦ none
    | some n ↦ events_size es (saturating_add_u32 total (n % 2 ^ 32))
  ]

  pub tx_resources : SorobanResources → ℕ → ℕ → TransactionResources
  tx_resources r events_bytes transaction_size_bytes =
      let read_only_count = length r.read_only % 2 ^ 32 in
      let read_write_count = length r.read_write % 2 ^ 32 in
      record {
        instructions = r.instructions;
        disk_read_entries = saturating_add_u32 read_only_count read_write_count;
        write_entries = read_write_count;
        disk_read_bytes = r.disk_read_bytes;
        write_bytes = r.write_bytes;
        contract_events_size_bytes = events_bytes;
        transaction_size_bytes = transaction_size_bytes;
      }

  pub fee_of : SorobanResources → List ℕ → ℕ → Option FeeConfiguration → Option ℤ
  unfolding events_size tx_resources saturating_add_i64
  fee_of r events size none = none
  fee_of r events size (some cfg) = elim (events_size events 0) [
    | none ↦ none
    | some bytes ↦
        let (non_refundable, refundable) = w.resource_fee (tx_resources r bytes size) cfg in
        some (saturating_add_i64 non_refundable refundable)
  ]

  unfoldable pub compute_min_resource_fee :
      ForkedEnv → SorobanResources → List ℕ → ℕ → Outcome (Option ℤ × ForkedEnv)
  unfolding fee_of
  compute_min_resource_fee env r events transaction_size_bytes = do
    (cfg, env') ← fee_configuration w.codec w.client env
    ok (fee_of r events transaction_size_bytes cfg, env')

  -- The reply's construction, after the host has run.
  unfoldable pub simulation_reply :
      ForkedEnv → HostOutput → ℕ → Outcome (SimulationReply × ForkedEnv)
  unfolding host_error empty_soroban_resources
  simulation_reply env out transaction_size_bytes = elim out.recorded [
    | success rec ↦ do
      (fee, env') ←
          compute_min_resource_fee env rec.resources rec.contract_events transaction_size_bytes
      ok (
        record {
          sim_result = host_error rec.invoke_result;
          auth = rec.auth;
          resources = rec.resources;
          contract_events = rec.contract_events;
          diagnostic_events = out.diagnostic_events;
          latest_ledger = ledger_sequence env;
          min_resource_fee = fee;
          mem_bytes = out.mem_bytes;
        },
        env',
      )
    | error e ↦ ok (
      record {
        sim_result = error (codes "recording-mode error: " ++ e);
        auth = [];
        resources = empty_soroban_resources;
        contract_events = [];
        diagnostic_events = out.diagnostic_events;
        latest_ledger = ledger_sequence env;
        min_resource_fee = none;
        mem_bytes = out.mem_bytes;
      },
      env,
    )
  ]

  unfoldable pub simulate_transaction :
      ForkedEnv → HostFunction → Bytes → ℕ → Outcome (SimulationReply × ForkedEnv)
  simulate_transaction env f account transaction_size_bytes = do
    (out, s) ← run_host w.codec w.client (w.host f account env.info) env.source
    simulation_reply (record env { source = s }) out transaction_size_bytes
