-- ===== src/Server/Examples.antt =====
-- A server on an environment without test accounts, and what may happen to it.
use soroban_fork.Prelude.{◌≡◌, refl, true, false, none, some, Option, [], ◌∷◌, codes}
use soroban_fork.Prelude.Outcome.{ok}
use soroban_fork.Xdr.{Bytes}
use soroban_fork.Errors.{done}
use soroban_fork.Build.{ForkConfig, Built, build}
use soroban_fork.Source.{FetchMode}
use soroban_fork.Cache.{FilePath, Files, Saved}
use soroban_fork.Actor.Sample.{env1}
use soroban_fork.Build.{
  preload_cache, with_latest, with_network, resolve_network, finish_build, build_env,
  build_sequence, fresh_source,
}
use soroban_fork.Rpc.Fetch.{get_latest_ledger, get_ledger_close_time}
use soroban_fork.Rpc.Post.{rpc_post, post_attempts, try_once, read_body, into_result, after_send}
use soroban_fork.Rpc.{is_retryable, is_success}
use soroban_fork.Accounts.{
  mint, preloads, default_balance_stroops, generate, generate_from, ledger_entry, test_account,
  trustline_entry, trustline_preloads,
}
use soroban_fork.Source.{preload, encode_entry}
use soroban_fork.Prelude.{ℕ_discrete}
use soroban_fork.Env.{build_timestamp, cap_protocol_version}
use soroban_fork.Ledger.{key_eq}
use soroban_fork.Prelude.Assoc.{insert}
use soroban_fork.Xdr.{ScVal-discrete}
use soroban_fork.Source
use soroban_fork.Server
use soroban_fork.Server.{RunningServer, started, builder, listen, listen_or_default}
use soroban_fork.Server.Started.{handle_of, start_lem}
use soroban_fork.Server.Lifecycle.{State, ended}
use soroban_fork.Build.Sample.{keys, codec, config, platform, disk, codecs, http, start, after}

abbrev bare : ForkConfig
bare = record config { test_account_count = 0 }

abbrev built : Built
built = record {
  env = record {
    info = record {
      protocol_version = 25;
      sequence_number = 1000;
      timestamp = 3605;
      network_id = 7 ∷ [];
    };
    source = Source.new;
    fork_sequence = 1000;
    fork_timestamp = 3605;
    network_id = 7 ∷ [];
    protocol_version = 25;
    passphrase = none;
    fee_cell = none;
  };
  cache_path = none;
  test_accounts = [];
}

build_made : build codec disk codecs keys http platform bare [] start ≡ ok (done built, after)
unfolding build preload_cache with_latest with_network resolve_network finish_build build_env
    build_sequence fresh_source get_latest_ledger get_ledger_close_time rpc_post post_attempts
    try_once read_body into_result after_send is_retryable is_success mint preloads
    default_balance_stroops generate generate_from ledger_entry test_account trustline_entry
    trustline_preloads preload encode_entry ℕ_discrete build_timestamp cap_protocol_version key_eq
    insert ScVal-discrete
build_made = refl

-- The listener on port 0 gets a port.
abbrev bind : Bytes → Option Bytes
bind address = some (codes "127.0.0.1:41234")

start_lem_example :
    Server.start codec disk codecs keys http platform bind
      (listen (builder bare) (codes "127.0.0.1:0"))
      []
      start
    ≡ started (handle_of built (codes "127.0.0.1:41234"))
unfolding builder listen listen_or_default
start_lem_example =
    (start_lem codec disk codecs keys http platform bind
        (listen (builder bare) (codes "127.0.0.1:0")) [] start
        (handle_of built (codes "127.0.0.1:41234"))).1
      (built, after, codes "127.0.0.1:41234", build_made, refl, refl)

abbrev path : FilePath
path = record { parent = none; file_name = some (codes "cache.json") }

abbrev server : RunningServer
server = record {
  local_addr = codes "127.0.0.1:41234";
  shutdown_tx = true;
  thread = record { worker = record { env = env1; receipts = [] }; cache_path = some path };
}

abbrev before : Files
before = (path, some (codes "old")) ∷ []

abbrev tmp : FilePath
tmp = record { parent = none; file_name = some (codes ".cache.json.tmp.7.9") }

-- The snapshot's text is empty here, and the temporary file is gone.
abbrev saved : Saved
saved = record {
  result = done tt;
  visited = ((path, some (codes "old")) ∷ (tmp, some []) ∷ []) ∷ [];
  files = (path, some []) ∷ (tmp, none) ∷ [];
}

-- A command is served, the handle is dropped, and the worker saves its environment.
abbrev ended_state : State
ended_state = record {
  open_handle = false;
  serving = false;
  life = ended;
  files = saved.files;
  exited = false;
}
