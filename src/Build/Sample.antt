-- ===== src/Build/Sample.antt =====
-- The settings and the endpoint of a build with one test account, for tests.
use soroban_fork.Prelude.{true, none, some, Option, [], ◌∷◌, codes}
use soroban_fork.Prelude.Int.{pos}
use soroban_fork.Xdr.{Bytes}
use soroban_fork.Ledger.{LedgerEntry, LedgerEntryData, TrustLineAsset}
use soroban_fork.Source.{Codec}
use soroban_fork.Source.Guarded.{guarded_codec}
use soroban_fork.Accounts.{TestAccount, Keys, ledger_entry, trustline_entry}
use soroban_fork.Rpc.{response, Http, LatestLedger, Net}
use soroban_fork.Rpc.Fetch.{Codecs}
use soroban_fork.Cache.{Disk}
use soroban_fork.Build.{ForkConfig, Platform}

abbrev pub keys : Keys
keys = record {
  sha256 = λ b. 9 ∷ [];
  verifying_key = λ seed. seed;
  account_strkey = λ text. some text;
}

abbrev pub usdc : TrustLineAsset
usdc = TrustLineAsset.credit_alphanum4 (codes "USDC") (1 ∷ [])

abbrev pub account : TestAccount
account = record { secret_seed = 9 ∷ []; public_key = 9 ∷ []; balance_stroops = pos 1000000000000 }

unfoldable pub to_bytes : LedgerEntryData → Bytes
to_bytes (LedgerEntryData.account a) = 1 ∷ []
to_bytes _ = []

unfoldable pub of_bytes : Bytes → Option LedgerEntry
unfolding ledger_entry trustline_entry
of_bytes [] = some (trustline_entry account usdc 1000).1
of_bytes (b ∷ rest) = some (ledger_entry account 1000).1

abbrev pub codec : Codec
codec = guarded_codec to_bytes of_bytes

abbrev pub config : ForkConfig
config = record {
  cache_path = none;
  network_id = some (7 ∷ []);
  fetch_mode = none;
  pinned_ledger = none;
  pinned_timestamp = none;
  max_protocol_version = none;
  rpc_config = record { retries = 2; base_retry_delay = 100; max_keys_per_request = 200 };
  tracing = true;
  test_account_count = 1;
  test_trustlines = usdc ∷ [];
}

abbrev pub platform : Platform
platform = record { client_starts = true; host_max = 25; sets_level = λ tracing. true }

abbrev pub disk : Disk
disk = record {
  to_text = λ snapshot. [];
  of_text = λ text. none;
  writing = λ files text. ([], true);
  renaming = λ files. true;
  pid = 7;
  nanos = 9;
}

-- The endpoint is at ledger 1000, of protocol 26.
abbrev pub codecs : Codecs
codecs = record {
  latest = record {
    parse = λ body. some (record {
      result = some (record { protocol_version = 26; sequence = 1000 });
      error = none;
    });
  };
  page = record {
    parse =
        λ body. some (record { result = some (record { ledgers = codes "5" ∷ [] }); error = none });
  };
  network = record { parse = λ body. none };
  ledger_entries = record { parse = λ body. none };
  key_to_xdr = λ key. none;
  data_from_xdr = λ bytes. none;
  b64_encode = λ bytes. bytes;
  b64_decode = λ text. some text;
  parse_u64 = λ text. some 5;
  sha256 = λ bytes. bytes;
}

abbrev pub http : Http
http number request = response 200 []

abbrev pub start : Net
start = record { sent = 0; slept = []; rng = 1 }

abbrev pub after : Net
after = record { sent = 2; slept = []; rng = 1 }

abbrev pub latest : LatestLedger
latest = record { sequence = 1000; protocol_version = 26; close_time = 5 }
