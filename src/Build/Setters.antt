-- ===== src/Build/Setters.antt =====
-- The methods of ForkConfig in src/lib.rs that set a field each.
use soroban_fork.Prelude.{ℕ, Bool, some, List}
use soroban_fork.Xdr.{Bytes}
use soroban_fork.Ledger.{TrustLineAsset}
use soroban_fork.Source.{FetchMode}
use soroban_fork.Rpc.{RpcConfig}
use soroban_fork.Cache.{FilePath}
use soroban_fork.Build.{ForkConfig}

unfoldable pub cache_file : ForkConfig → FilePath → ForkConfig
cache_file config path = record config { cache_path = some path }

unfoldable pub network_id : ForkConfig → Bytes → ForkConfig
network_id config id = record config { network_id = some id }

unfoldable pub fetch_mode : ForkConfig → FetchMode → ForkConfig
fetch_mode config mode = record config { fetch_mode = some mode }

unfoldable pub at_ledger : ForkConfig → ℕ → ForkConfig
at_ledger config sequence = record config { pinned_ledger = some sequence }

unfoldable pub pinned_timestamp : ForkConfig → ℕ → ForkConfig
pinned_timestamp config unix_seconds = record config { pinned_timestamp = some unix_seconds }

unfoldable pub max_protocol_version : ForkConfig → ℕ → ForkConfig
max_protocol_version config version = record config { max_protocol_version = some version }

unfoldable pub rpc_config : ForkConfig → RpcConfig → ForkConfig
rpc_config config c = record config { rpc_config = c }

unfoldable pub tracing : ForkConfig → Bool → ForkConfig
tracing config enabled = record config { tracing = enabled }

unfoldable pub test_account_count : ForkConfig → ℕ → ForkConfig
test_account_count config count = record config { test_account_count = count }

unfoldable pub test_account_trustlines : ForkConfig → List TrustLineAsset → ForkConfig
test_account_trustlines config assets = record config { test_trustlines = assets }
