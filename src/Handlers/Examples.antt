-- ===== src/Handlers/Examples.antt =====
-- The theorems on the handlers in a small world, whose transactions all invoke one function.
use soroban_fork.Prelude.{
  ap, ◌≡◌, ◌+◌, ◌*◌, ◌↔◌, min, refl, Option, none, some, [], ◌∷◌, arith, codes, ℕ_discrete, true,
  false,
}
use soroban_fork.Prelude.Int.{pos}
use soroban_fork.Prelude.Word.{u32_max, u64_max}
use soroban_fork.Prelude.Assoc.{lookup, insert}
use soroban_fork.Xdr.{Bytes, ScAddress, u32}
use soroban_fork.Ledger.{LedgerKey, key_eq}
use soroban_fork.Source.{FetchMode, apply_changes, bump_account_seq}
use soroban_fork.Source.Sample.{sample_codec, sample_client, alice, bob}
use soroban_fork.Fees.{default_fees}
use soroban_fork.Env.{warp, ledger_sequence, ledger_close_time}
use soroban_fork.Tx.{HostFunction, MuxedAccount, OperationBody, Transaction, TransactionEnvelope}
use soroban_fork.Hex.{parse_hex32, hex_lower, hex_digit}
use soroban_fork.Actor.{Worker, step, bytes_key_eq}
use soroban_fork.Actor.Submission.{send_transaction, tx_hash}
use soroban_fork.Prelude.Decimal.{decimal}
use soroban_fork.Actor.Host.{World, Recording, success, finished, run_host}
use soroban_fork.Actor.Messages.{TxReceipt}
use soroban_fork.Handlers.{
  Wire, JsonRpcError, answered, refused, send, as_sent, as_latest_ledger, as_ledgers_page,
}
use soroban_fork.Handlers.Commands.{
  SendTransactionResponse, extract_invoke_op, extract_single, inner_transaction,
  handle_send_transaction, handle_fork_close_ledgers,
}
use soroban_fork.Handlers.Extract.{Invokes, extract_invoke_op_lem}
use soroban_fork.Handlers.Refusal.{
  Carries, handle_send_transaction-refused, handle_fork_close_ledgers_lem,
}
use soroban_fork.Handlers.Lookup.{IsDigest, handle_send_transaction-receipt}

abbrev invocation : HostFunction
invocation = HostFunction.invoke_contract (ScAddress.contract (5 ∷ [])) (codes "pay") []

-- Bob's operation in a transaction of Alice.
abbrev sample_tx : Transaction
sample_tx = record {
  source_account = MuxedAccount.ed25519 alice;
  fee = 100;
  seq_num = pos 8;
  operations =
      record {
        source_account = some (MuxedAccount.muxed_ed25519 77 bob);
        op_body = OperationBody.invoke_host_function invocation;
      }
      ∷ [];
}

extract_invoke_op_lem_example :
    (extract_invoke_op (TransactionEnvelope.tx sample_tx []) ≡ some (invocation, bob))
    ↔ Invokes invocation bob (TransactionEnvelope.tx sample_tx [])
extract_invoke_op_lem_example =
    extract_invoke_op_lem (TransactionEnvelope.tx sample_tx []) invocation bob

abbrev digest : Bytes
digest =
    1 ∷ 2 ∷ 3 ∷ 4 ∷ 5 ∷ 6 ∷ 7 ∷ 8 ∷ 9 ∷ 10 ∷ 11 ∷ 12 ∷ 13 ∷ 14 ∷ 15 ∷ 16 ∷ 17 ∷ 18 ∷ 19 ∷ 20 ∷ 21
    ∷ 22 ∷ 23 ∷ 24 ∷ 25 ∷ 26 ∷ 27 ∷ 28 ∷ 29 ∷ 30 ∷ 31 ∷ 255 ∷ []

abbrev recording : Recording
recording = record {
  invoke_result = success (u32 1);
  auth = [];
  resources = record {
    read_only = [];
    read_write = [];
    instructions = 50;
    disk_read_bytes = 0;
    write_bytes = 0;
  };
  contract_events = [];
  ledger_changes =
      record {
        read_only = false;
        encoded_key = bob;
        encoded_new_value = some (0 ∷ 9 ∷ 3 ∷ 1 ∷ 0 ∷ 0 ∷ bob);
        ttl_change = none;
      }
      ∷ [];
}

unfoldable sample_world : World
unfolding sample_codec
sample_world = record {
  codec = sample_codec;
  client = sample_client;
  host = λ f account info.
      finished (record { recorded = success recording; diagnostic_events = []; mem_bytes = none });
  decode_envelope = λ b. some (TransactionEnvelope.tx sample_tx []);
  encode_payload = λ network tagged. some network;
  sha256 = λ b. digest;
  event_size = λ e. some 64;
  resource_fee = λ r cfg. (pos 70, pos 30);
}

-- Texts stand for their bytes, and the empty text is malformed.
abbrev decode_text : Bytes → Option Bytes
decode_text [] = none
decode_text (x ∷ xs) = some (x ∷ xs)

abbrev sample_wire : Wire
sample_wire = record {
  b64_decode = decode_text;
  b64_encode = λ b. b;
  encode_key = λ k. some [];
  encode_data = λ d. some [];
}

abbrev worker : Worker
worker = record {
  env = record {
    info = record {
      protocol_version = 25;
      sequence_number = 1000;
      timestamp = 1750000000;
      network_id = 7 ∷ [];
    };
    source = record { cache = []; fetches = 0; fetch_mode = FetchMode.strict };
    fork_sequence = 1000;
    fork_timestamp = 1749996400;
    network_id = 7 ∷ [];
    protocol_version = 25;
    passphrase = none;
    fee_cell = some default_fees;
  };
  receipts = [];
}

-- Every text is a transaction of two operations here, each of which invokes the function.
abbrev twice : TransactionEnvelope
twice =
    TransactionEnvelope.tx
      (record sample_tx {
        operations =
            record {
              source_account = none;
              op_body = OperationBody.invoke_host_function invocation;
            }
            ∷ record {
              source_account = none;
              op_body = OperationBody.invoke_host_function invocation;
            }
            ∷ [];
      })
      []

abbrev twice_world : World
twice_world = record sample_world { decode_envelope = λ b. some twice }

not_single : extract_invoke_op twice ≡ none
unfolding extract_invoke_op extract_single inner_transaction
not_single = refl

nothing_carried : ¬ Carries twice_world sample_wire 0 (codes "AA")
nothing_carried c =
    let extracted = (extract_invoke_op_lem c.envelope c.function c.account).1 c.invokes in
    let same : twice ≡ c.envelope = cc (c.is_envelope) in
    cc (extracted, not_single, ap (λ (e : TransactionEnvelope). extract_invoke_op e) same)

handle_send_transaction-refused_example :
    handle_send_transaction twice_world sample_wire 0 (codes "AA") (some worker)
    ≡ (refused JsonRpcError.invalid_params, some worker)
handle_send_transaction-refused_example =
    handle_send_transaction-refused twice_world sample_wire 0 (codes "AA") (some worker)
      nothing_carried

handle_fork_close_ledgers_lem_example :
    (handle_fork_close_ledgers sample_world sample_wire 0 none none (some worker)
      ≡ handle_fork_close_ledgers sample_world sample_wire 0 (some 1) (some 5) (some worker))
    × (handle_fork_close_ledgers sample_world sample_wire 0 (some 3) none (some worker)
        ≡ handle_fork_close_ledgers sample_world sample_wire 0
            (some 3)
            (some (3 * 5))
            (some worker))
    × (handle_fork_close_ledgers sample_world sample_wire 0 (some 3) (some 60) (some worker) ≡ (
      answered (record {
        new_sequence = min (worker.env.info.sequence_number + 3) u32_max;
        new_close_time = decimal 20 (min (worker.env.info.timestamp + 60) u64_max);
      }),
      some (record worker { env = warp worker.env 3 60 }),
    ))
handle_fork_close_ledgers_lem_example =
    handle_fork_close_ledgers_lem sample_world sample_wire 0 worker 3 60

abbrev receipt : TxReceipt
receipt = record {
  tx_result = success (u32 1);
  envelope_bytes = 1 ∷ [];
  ledger = 1000;
  created_at = 5;
  applied_changes = 1;
}

abbrev worker_after : Worker
worker_after = record {
  env = record worker.env {
    source = record {
      cache = (LedgerKey.account bob, some (0 ∷ 9 ∷ 3 ∷ 2 ∷ 0 ∷ 0 ∷ bob, none)) ∷ [];
      fetches = 0;
      fetch_mode = FetchMode.strict;
    };
  };
  receipts = (digest, receipt) ∷ [];
}

abbrev response : SendTransactionResponse
response = record {
  is_success = true;
  hash = codes "0102030405060708090a0b0c0d0e0f101112131415161718191a1b1c1d1e1fff";
  latest_ledger = 1000;
  latest_ledger_close_time = codes "1750000000";
  envelope_xdr = 1 ∷ [];
  error_message = none;
  applied_changes = 1;
}

sample_world-IsDigest : IsDigest sample_world.sha256
unfolding sample_world
sample_world-IsDigest b = (refl, ground arith)

responded :
    handle_send_transaction sample_world sample_wire 5 (1 ∷ []) (some worker)
    ≡ (answered response, some worker_after)
unfolding sample_world sample_codec handle_send_transaction send as_sent step send_transaction
    run_host apply_changes bump_account_seq lookup insert key_eq ℕ_discrete ledger_sequence
    ledger_close_time tx_hash hex_lower extract_invoke_op as_latest_ledger as_ledgers_page decimal
    hex_digit
responded = refl

handle_send_transaction-receipt_example :
    (hash : Bytes) × (r : TxReceipt) × (parse_hex32 response.hash ≡ some hash)
    × (lookup hash worker_after.receipts ≡ some r)
    × (response.applied_changes ≡ r.applied_changes)
    × (response.latest_ledger ≡ r.ledger)
handle_send_transaction-receipt_example =
    handle_send_transaction-receipt sample_world sample_wire 5 (1 ∷ []) worker sample_world-IsDigest
      responded
