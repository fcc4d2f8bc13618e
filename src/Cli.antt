-- ===== src/Cli.antt =====
-- src/bin/soroban-fork.rs: the command `serve`. The banner that it prints is left out.
use soroban_fork.Prelude.{ℕ, Bool, Option, none, some}
use soroban_fork.Prelude.Outcome.{Outcome, ok, ◌>>=◌}
use soroban_fork.Xdr.{Bytes}
use soroban_fork.Source.{Codec}
use soroban_fork.Rpc.{Http, Net}
use soroban_fork.Rpc.Fetch.{Codecs}
use soroban_fork.Accounts.{Keys}
use soroban_fork.Cache.{FilePath, Files, Disk}
use soroban_fork.Build.{ForkConfig, Platform, new_config}
use soroban_fork.Build.Setters.{tracing, test_account_count, cache_file}
use soroban_fork.Server.{builder, listen, TaskEnd, Stopped, serve}

-- The arguments of `serve`, but for the URL, as clap reads them.
pub record Serve : Type 0 where
  pub listen_address : Bytes
  pub cache : Option FilePath
  pub tracing : Bool
  pub accounts : ℕ

abbrev pub default_test_accounts : ℕ
default_test_accounts = 10

unfoldable pub with_cache_file : ForkConfig → Option FilePath → ForkConfig
with_cache_file config none = config
with_cache_file config (some path) = cache_file config path

unfoldable pub serve_config : ForkConfig → Serve → ForkConfig
unfolding with_cache_file
serve_config config args =
    with_cache_file (test_account_count (tracing config args.tracing) args.accounts) args.cache

module _ (codec : Codec) (disk : Disk) (codecs : Codecs) (keys : Keys) (http : Http)
    (platform : Platform) where
  unfoldable pub run_serve :
      (Bytes → Option Bytes) → TaskEnd → Serve → Files → Net → Outcome Stopped
  run_serve bind task args files net = do
    config ← new_config keys
    ok (
        serve codec disk codecs keys http platform bind task
          (listen (builder (serve_config config args)) args.listen_address) files net)
