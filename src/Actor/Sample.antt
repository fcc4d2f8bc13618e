-- ===== src/Actor/Sample.antt =====
-- A small world for tests of the worker: the host reads an account and writes another.
use soroban_fork.Prelude.{ℕ, Option, none, some, List, [], ◌∷◌, codes, false}
use soroban_fork.Prelude.Int.{pos}
use soroban_fork.Xdr.{Bytes, ScAddress, u32}
use soroban_fork.Ledger.{LedgerKey, ledger_key_eq}
use soroban_fork.Source.{FetchMode, LedgerEntryChange}
use soroban_fork.Source.Sample.{sample_codec, sample_client, alice, bob, alice_bytes}
use soroban_fork.Fees.{default_fees}
use soroban_fork.Env.{LedgerInfo, ForkedEnv}
use soroban_fork.Tx.{HostFunction, TransactionEnvelope, Transaction, MuxedAccount}
use soroban_fork.Actor.{bytes_key_eq}
use soroban_fork.Actor.Host.{
  World, HostRun, HostOutput, Recording, SorobanResources, success, error, finished, reads,
}

abbrev pub alice_key : LedgerKey
alice_key = LedgerKey.account alice

abbrev pub bob_key : LedgerKey
bob_key = LedgerKey.account bob

abbrev pub resources : SorobanResources
resources = record {
  read_only = [];
  read_write = bob_key ∷ [];
  instructions = 50;
  disk_read_bytes = 100;
  write_bytes = 100;
}

abbrev pub bob_bytes : Bytes
bob_bytes = 0 ∷ 9 ∷ 3 ∷ 1 ∷ 0 ∷ 0 ∷ bob

abbrev pub transfer : LedgerEntryChange
transfer = record {
  read_only = false;
  encoded_key = bob;
  encoded_new_value = some bob_bytes;
  ttl_change = none;
}

abbrev pub transferred : Recording
transferred = record {
  invoke_result = success (u32 1);
  auth = [];
  resources = resources;
  contract_events = 4 ∷ [];
  ledger_changes = transfer ∷ [];
}

abbrev pub refused : Recording
refused = record {
  invoke_result = error (codes "trapped");
  auth = [];
  resources = resources;
  contract_events = [];
  ledger_changes = transfer ∷ [];
}

abbrev pub output : Recording → HostOutput
output rec = record { recorded = success rec; diagnostic_events = []; mem_bytes = some 900 }

-- Reads Alice's account, then transfers to Bob; any function but an invocation traps.
abbrev pub sample_host : HostFunction → Bytes → LedgerInfo → HostRun
sample_host (HostFunction.invoke_contract c f args) account info =
    reads alice_key (λ _. finished (output transferred))
sample_host (HostFunction.other_function n) account info =
    reads alice_key (λ _. finished (output refused))

abbrev pub sample_tx : Transaction
sample_tx = record {
  source_account = MuxedAccount.ed25519 alice;
  fee = 100;
  seq_num = pos 8;
  operations = [];
}

unfoldable pub sample_world : World
unfolding sample_codec
sample_world = record {
  codec = sample_codec;
  client = sample_client;
  host = sample_host;
  decode_envelope = λ b. some (TransactionEnvelope.tx sample_tx []);
  encode_payload = λ network tagged. some (8 ∷ network);
  sha256 = λ b. 99 ∷ b;
  event_size = λ e. some 64;
  resource_fee = λ r cfg. (pos 70, pos 30);
}

abbrev pub with_cache : List (LedgerKey × Option (Bytes × Option ℕ)) → ℕ → ForkedEnv
with_cache m n = record {
  info = record {
    protocol_version = 25;
    sequence_number = 1000;
    timestamp = 1750000000;
    network_id = 7 ∷ [];
  };
  source = record { cache = m; fetches = n; fetch_mode = FetchMode.strict };
  fork_sequence = 1000;
  fork_timestamp = 1749996400;
  network_id = 7 ∷ [];
  protocol_version = 25;
  passphrase = none;
  fee_cell = some default_fees;
}

abbrev pub env0 : ForkedEnv
env0 = with_cache [] 0

abbrev pub env1 : ForkedEnv
env1 = with_cache ((alice_key, some (alice_bytes, none)) ∷ []) 1

-- Alice's sequence number was raised from 7 to 8.
abbrev pub env2 : ForkedEnv
env2 =
    with_cache
      ((alice_key, some (0 ∷ 9 ∷ 100 ∷ 8 ∷ 0 ∷ 0 ∷ alice, none))
        ∷ (bob_key, some (bob_bytes, none))
        ∷ [])
      1

abbrev pub invocation : HostFunction
invocation = HostFunction.invoke_contract (ScAddress.contract (5 ∷ [])) (codes "pay") []

abbrev pub upload : HostFunction
upload = HostFunction.other_function 2
