-- ===== src/Build.antt =====
-- src/lib.rs: ForkConfig and its build, which makes a forked environment from a cache file and the endpoint's answers.
pub mod Settings
pub mod Setters
pub mod Sample
mod Examples
use soroban_fork.Prelude.{ℕ, Bool, true, false, Option, none, some, List, [], ◌∷◌, if◌then◌else◌}
use soroban_fork.Prelude.Outcome.{Outcome, ok, panic, ◌>>=◌}
use soroban_fork.Xdr.{Bytes}
use soroban_fork.Ledger.{LedgerKey, LedgerEntry, TrustLineAsset}
use soroban_fork.Source.{
  Source, Codec, FetchMode, EntryWithLiveUntil, new, with_fetch_mode, preload,
}
use soroban_fork.Env.{ForkedEnv, cap_protocol_version, build_timestamp}
use soroban_fork.Errors.{ForkError, Try, done, failed}
use soroban_fork.Rpc.{RpcConfig, default_config, Http, LatestLedger, NetworkMetadata, Net}
use soroban_fork.Rpc.Fetch.{Codecs, get_latest_ledger, get_network}
use soroban_fork.Accounts.{TestAccount, Keys, generate, mint, usdc_mainnet_trustline_asset}
use soroban_fork.Cache.{FilePath, Files, Disk, read_at, load_snapshot}

pub record ForkConfig : Type 0 where
  pub cache_path : Option FilePath
  pub network_id : Option Bytes
  pub fetch_mode : Option FetchMode
  pub pinned_ledger : Option ℕ
  pub pinned_timestamp : Option ℕ
  pub max_protocol_version : Option ℕ
  pub rpc_config : RpcConfig
  pub tracing : Bool
  pub test_account_count : ℕ
  pub test_trustlines : List TrustLineAsset

-- The HTTP client, the Soroban host and the SDK, as far as `build` asks them: whether the HTTP client starts, the host's
-- newest protocol, and whether the host takes a diagnostic level.
pub record Platform : Type 0 where
  pub client_starts : Bool
  pub host_max : ℕ
  pub sets_level : Bool → Bool

pub record Built : Type 0 where
  pub env : ForkedEnv
  pub cache_path : Option FilePath
  pub test_accounts : List TestAccount

-- ForkConfig::new(..), but for the URL
unfoldable pub new_config : Keys → Outcome ForkConfig
new_config keys = do
  usdc ← usdc_mainnet_trustline_asset keys
  ok (record {
    cache_path = none;
    network_id = none;
    fetch_mode = none;
    pinned_ledger = none;
    pinned_timestamp = none;
    max_protocol_version = none;
    rpc_config = default_config;
    tracing = false;
    test_account_count = 10;
    test_trustlines = usdc ∷ [];
  })

unfoldable pub fresh_source : Option FetchMode → Source
fresh_source none = new
fresh_source (some mode) = with_fetch_mode new mode

-- `unwrap_or(latest.sequence)`
unfoldable pub build_sequence : Option ℕ → ℕ → ℕ
build_sequence none latest = latest
build_sequence (some pinned) latest = pinned

unfoldable pub flat : LedgerKey × EntryWithLiveUntil → LedgerKey × LedgerEntry × Option ℕ
flat (k, (e, live_until)) = (k, e, live_until)

unfoldable pub flat_all :
    List (LedgerKey × EntryWithLiveUntil) → List (LedgerKey × LedgerEntry × Option ℕ)
flat_all [] = []
flat_all (x ∷ xs) = flat x ∷ flat_all xs

unfoldable pub named_network : Try NetworkMetadata × Net → Try (Bytes × Option Bytes) × Net
named_network (failed e, net) = (failed e, net)
named_network (done meta, net) = (done (meta.network_id, some meta.passphrase), net)

module _ (codec : Codec) (disk : Disk) (codecs : Codecs) (keys : Keys) (http : Http)
    (platform : Platform) where
  -- A file that does not load is passed over.
  unfoldable pub preload_cache : Option FilePath → Files → Source → Outcome Source
  preload_cache none files s = ok s
  preload_cache (some path) files s = elim (read_at path files) [
    | none ↦ ok s
    | some text ↦ elim (load_snapshot disk path files) [
      | done entries ↦ preload codec s (flat_all entries)
      | failed e ↦ ok s
    ]
  ]

  -- The network's id, and its passphrase when the endpoint gave it.
  unfoldable pub resolve_network : ForkConfig → Net → Try (Bytes × Option Bytes) × Net
  resolve_network config net = elim config.network_id [
    | some id ↦ (done (id, none), net)
    | none ↦ named_network (get_network config.rpc_config http codecs net)
  ]

  unfoldable pub build_env : ForkConfig → Source → LatestLedger → Bytes → Option Bytes → ForkedEnv
  build_env config s latest network_id passphrase =
      let sequence = build_sequence config.pinned_ledger latest.sequence in
      let protocol_version =
        cap_protocol_version latest.protocol_version config.max_protocol_version
          platform.host_max in
      let timestamp = build_timestamp config.pinned_timestamp latest.close_time in
      record {
        info = record {
          protocol_version = protocol_version;
          sequence_number = sequence;
          timestamp = timestamp;
          network_id = network_id;
        };
        source = s;
        fork_sequence = sequence;
        fork_timestamp = timestamp;
        network_id = network_id;
        protocol_version = protocol_version;
        passphrase = passphrase;
        fee_cell = none;
      }

  -- The end of `build`, from the diagnostic level on.
  unfoldable pub finish_build :
      ForkConfig → Source → LatestLedger → Bytes → Option Bytes → Outcome (Try Built)
  finish_build config s latest network_id passphrase =
      let sequence = build_sequence config.pinned_ledger latest.sequence in
      let accounts = generate keys config.test_account_count in
      let minted = mint keys codec s sequence config.test_account_count config.test_trustlines in
      if platform.sets_level config.tracing
      then (do
        t ← minted
        ok (
            done (record {
              env = build_env config t latest network_id passphrase;
              cache_path = config.cache_path;
              test_accounts = accounts;
            })))
      else ok (failed ForkError.host)

  unfoldable pub with_network :
      ForkConfig
      → Source
      → LatestLedger
      → Try (Bytes × Option Bytes) × Net
      → Outcome (Try Built × Net)
  with_network config s latest (failed e, net) = ok (failed e, net)
  with_network config s latest (done (network_id, passphrase), net) = do
    result ← finish_build config s latest network_id passphrase
    ok (result, net)

  unfoldable pub with_latest :
      ForkConfig → Source → Try LatestLedger × Net → Outcome (Try Built × Net)
  with_latest config s (failed e, net) = ok (failed e, net)
  with_latest config s (done latest, net) =
      with_network config s latest (resolve_network config net)

  unfoldable pub build : ForkConfig → Files → Net → Outcome (Try Built × Net)
  build config files net = elim platform.client_starts [
    | false ↦ ok (failed ForkError.transport, net)
    | true ↦ do
      s ← preload_cache config.cache_path files (fresh_source config.fetch_mode)
      with_latest config s (get_latest_ledger config.rpc_config http codecs net)
  ]
