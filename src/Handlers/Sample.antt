-- ===== src/Handlers/Sample.antt =====
-- A small world for the methods that write state: a token's instance, Carol's account and their entries.
use soroban_fork.Prelude.{zero, suc, ◌^◌, refl, Option, none, some, [], ◌∷◌, codes, ◌*◌}
use soroban_fork.Prelude.Int.{pos}
use soroban_fork.Xdr.{Bytes, ScAddress, ScVal, ContractExecutable, InstanceStorage, ScMap}
use soroban_fork.Ledger.{LedgerKey, LedgerEntry, LedgerEntryData, AccountEntry}
use soroban_fork.Source.{Codec, Fetched, FetchMode}
use soroban_fork.Source.Guarded.{guarded_codec}
use soroban_fork.Fees.{default_fees}
use soroban_fork.Actor.{Worker, bytes_key_eq}
use soroban_fork.Actor.Host.{World, Recording, success, error, finished}
use soroban_fork.Actor.Messages.{TxReceipt, SimulationReply}
use soroban_fork.Handlers.{Wire}
use soroban_fork.Handlers.Params.{Outside, EtchParams, SetBalanceParams}
use soroban_fork.Handlers.Install.{code_entry, instance_key, instance_entry}
use soroban_fork.Handlers.Responses.{Encoders}
use soroban_fork.Handlers.Receipt.{Encodings}
use soroban_fork.Handlers.Dispatch.{JsonRpcRequest, Readers}

abbrev pub token_address : ScAddress
token_address = ScAddress.contract (5 ∷ [])

-- An instance keeps a counter.
abbrev pub counter : InstanceStorage
counter = InstanceStorage.storage (ScMap.entry (ScVal.u32 1) (ScVal.u32 42) ScMap.no_entries)

abbrev pub carol : Bytes
carol = 3 ∷ 4 ∷ []

abbrev pub carols_account : AccountEntry
carols_account = record {
  account_id = carol;
  balance = pos 500;
  seq_num = pos (1000 * 2 ^ 32);
  num_sub_entries = 0;
  inflation_dest = none;
  flags = 0;
  home_domain = [];
  thresholds = 1 ∷ 0 ∷ 0 ∷ 0 ∷ [];
  signers = [];
}

abbrev pub carols_entry : LedgerEntry
carols_entry = record {
  last_modified_ledger_seq = 1000;
  body = LedgerEntryData.account carols_account;
}

unfoldable pub to_bytes : LedgerEntryData → Bytes
to_bytes (LedgerEntryData.contract_code c) = 1 ∷ c.code
to_bytes (LedgerEntryData.contract_data d) = elim d.val [
  | ScVal.contract_instance (ContractExecutable.wasm hash) kept ↦ 2 ∷ hash
  | _ ↦ []
]
to_bytes (LedgerEntryData.account a) = 3 ∷ []
to_bytes _ = []

unfoldable pub of_bytes : Bytes → Option LedgerEntry
of_bytes ((suc zero) ∷ code) = some (code_entry (9 ∷ []) code)
of_bytes ((suc (suc zero)) ∷ hash) = some (instance_entry token_address hash counter)
of_bytes ((suc (suc (suc zero))) ∷ rest) = some carols_entry
of_bytes _ = none

abbrev pub table_codec : Codec
table_codec = guarded_codec to_bytes of_bytes

-- The balance of every holder is 70.
abbrev pub recording : Recording
recording = record {
  invoke_result = success (ScVal.i128 (pos 0) 70);
  auth = [];
  resources = record {
    read_only = [];
    read_write = [];
    instructions = 50;
    disk_read_bytes = 0;
    write_bytes = 0;
  };
  contract_events = [];
  ledger_changes = [];
}

abbrev pub world : World
world = record {
  codec = table_codec;
  client = λ n k. Fetched.absent;
  host = λ f account info.
      finished (record { recorded = success recording; diagnostic_events = []; mem_bytes = none });
  decode_envelope = λ b. none;
  encode_payload = λ network tagged. none;
  sha256 = λ b. 9 ∷ [];
  event_size = λ e. some 64;
  resource_fee = λ r cfg. (pos 70, pos 30);
}

-- Texts stand for their bytes.
abbrev pub wire : Wire
wire = record {
  b64_decode = λ text. some text;
  b64_encode = λ b. b;
  encode_key = λ k. some [];
  encode_data = λ d. some [];
}

abbrev pub outside : Outside
outside = record {
  contract_strkey = λ text. some text;
  account_strkey = λ text. some text;
  scval_from_xdr = λ b. none;
  encode_envelope = λ e. some [];
  parse_i64 = λ text. some (pos 500);
  parse_i128 = λ text. some (pos 100);
}

abbrev pub receipt : TxReceipt
receipt = record {
  tx_result = error (codes "trapped");
  envelope_bytes = 1 ∷ [];
  ledger = 1000;
  created_at = 1750000000;
  applied_changes = 0;
}

-- The cache has the token's instance, with its old code, and knows that Carol has no account.
abbrev pub worker : Worker
worker = record {
  env = record {
    info = record {
      protocol_version = 25;
      sequence_number = 1000;
      timestamp = 1750000000;
      network_id = 7 ∷ [];
    };
    source = record {
      cache =
          (instance_key token_address, some (2 ∷ 8 ∷ [], none))
          ∷ (LedgerKey.account carol, none)
          ∷ [];
      fetches = 0;
      fetch_mode = FetchMode.strict;
    };
    fork_sequence = 1000;
    fork_timestamp = 1749996400;
    network_id = 7 ∷ [];
    protocol_version = 25;
    passphrase = none;
    fee_cell = some default_fees;
  };
  receipts = [];
}

abbrev pub etch : EtchParams
etch = record { contract = 5 ∷ []; wasm = 0 ∷ 97 ∷ []; live_until_ledger_seq = some 5000 }

abbrev pub deal : SetBalanceParams
deal = record { account = carol; amount = codes "500"; asset = none }

abbrev pub sim : SimulationReply
sim = record {
  sim_result = success (ScVal.i128 (pos 0) 70);
  auth = [];
  resources = recording.resources;
  contract_events = [];
  diagnostic_events = [];
  latest_ledger = 1000;
  min_resource_fee = some (pos 100);
  mem_bytes = none;
}

abbrev pub encoders : Encoders
encoders = record {
  scval_to_xdr = λ v. some [];
  auth_to_xdr = λ n. some [];
  data_to_xdr = λ d. some [];
  event_to_xdr = λ e. some [];
  result_to_xdr = λ r. some (6 ∷ []);
  meta_to_xdr = λ m. some (7 ∷ []);
}

abbrev pub encodings : Encodings encoders
encodings = record {
  of_scval = λ v. [];
  of_result = λ r. 6 ∷ [];
  of_meta = λ m. 7 ∷ [];
  scval_encodes = λ v. refl;
  result_encodes = λ r. refl;
  meta_encodes = λ m. refl;
}

abbrev pub digest : Bytes
digest =
    1 ∷ 2 ∷ 3 ∷ 4 ∷ 5 ∷ 6 ∷ 7 ∷ 8 ∷ 9 ∷ 10 ∷ 11 ∷ 12 ∷ 13 ∷ 14 ∷ 15 ∷ 16 ∷ 17 ∷ 18 ∷ 19 ∷ 20 ∷ 21
    ∷ 22 ∷ 23 ∷ 24 ∷ 25 ∷ 26 ∷ 27 ∷ 28 ∷ 29 ∷ 30 ∷ 31 ∷ 255 ∷ []

abbrev pub sent_before : Worker
sent_before = record worker { receipts = (digest, receipt) ∷ [] }

abbrev pub readers : Readers
readers = record {
  read_ledger_range = λ text. none;
  read_keys = λ text. none;
  read_transaction = λ text. none;
  read_hash = λ text. some text;
  read_set_ledger_entry = λ text. none;
  read_set_storage = λ text. none;
  read_set_code = λ text. none;
  read_set_balance = λ text. some deal;
  read_etch = λ text. some etch;
  read_close_ledgers = λ text. none;
  server_version = codes "0.8.7";
}

abbrev pub deal_request : JsonRpcRequest
deal_request = record {
  jsonrpc = codes "2.0";
  id = 1 ∷ [];
  method = codes "fork_setBalance";
  params = [];
}
