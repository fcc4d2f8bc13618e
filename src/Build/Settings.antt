-- ===== src/Build/Settings.antt =====
-- What a build makes of its settings and of the endpoint's answers.
use soroban_fork.Prelude.{
  ℕ, ◌+◌, ◌-◌, ◌^◌, min, ◌≡◌, ◌⊎◌, inl, inr, refl, true, Option, none, some, All,
}
use soroban_fork.Prelude.Outcome.{ok}
use soroban_fork.Xdr.{Bytes}
use soroban_fork.Ledger.{LedgerKey, LedgerEntry}
use soroban_fork.Source.{Source, Codec, IsCodec}
use soroban_fork.Source.View.{Known, view}
use soroban_fork.Env.{ForkedEnv, cap_protocol_version, build_timestamp}
use soroban_fork.Errors.{done}
use soroban_fork.Rpc.{Http, LatestLedger, NetworkMetadata, Net}
use soroban_fork.Rpc.Fetch.{Codecs, get_latest_ledger, get_network}
use soroban_fork.Accounts.{Keys, generate, preloads, generate_from}
use soroban_fork.Accounts.Minted.{Encode}
use soroban_fork.Accounts.Genesis.{mint_lem, funded_entry, authorized_entry}
use soroban_fork.Cache.{Files, Disk}
use soroban_fork.Build.{
  ForkConfig, Platform, fresh_source, build_sequence, preload_cache, resolve_network, build_env,
  finish_build, named_network, with_network, with_latest, build,
}

abbrev pub or_else : Option ℕ → ℕ → ℕ
or_else none other = other
or_else (some n) other = n

-- The pinned time, or the time of the latest ledger and an hour, as a u64.
abbrev pub start_time : Option ℕ → ℕ → ℕ
start_time none close_time = min (close_time + 3600) (2 ^ 64 - 1)
start_time (some pinned) close_time = pinned

-- The network's protocol version, up to what the host knows and what the caller allows.
abbrev pub protocol : ℕ → Option ℕ → ℕ → ℕ
protocol latest none host_max = min latest host_max
protocol latest (some allowed) host_max = min latest (min allowed host_max)

-- The environment that the settings ask for.
abbrev pub as_configured : ForkConfig → ℕ → Source → LatestLedger → Bytes → Option Bytes → ForkedEnv
as_configured config host_max s latest id passphrase = record {
  info = record {
    protocol_version = protocol latest.protocol_version config.max_protocol_version host_max;
    sequence_number = or_else config.pinned_ledger latest.sequence;
    timestamp = start_time config.pinned_timestamp latest.close_time;
    network_id = id;
  };
  source = s;
  fork_sequence = or_else config.pinned_ledger latest.sequence;
  fork_timestamp = start_time config.pinned_timestamp latest.close_time;
  network_id = id;
  protocol_version = protocol latest.protocol_version config.max_protocol_version host_max;
  passphrase = passphrase;
  fee_cell = none;
}

build_sequence-or_else : (o : Option ℕ) (n : ℕ) → build_sequence o n ≡ or_else o n
unfolding build_sequence
build_sequence-or_else none n = refl
build_sequence-or_else (some m) n = refl

build_timestamp-start_time : (o : Option ℕ) (n : ℕ) → build_timestamp o n ≡ start_time o n
unfolding build_timestamp
build_timestamp-start_time none n = refl
build_timestamp-start_time (some m) n = refl

cap_protocol_version-protocol :
    (n : ℕ) (o : Option ℕ) (host_max : ℕ)
    → cap_protocol_version n o host_max ≡ protocol n o host_max
unfolding cap_protocol_version
cap_protocol_version-protocol n none host_max = refl
cap_protocol_version-protocol n (some m) host_max = refl

-- The network's id is the configured one, whose passphrase is not known, or the endpoint tells both.
abbrev pub NamedBy : ForkConfig → Http → Codecs → Net → Bytes → Option Bytes → Net → Type 0
NamedBy config http codecs net id passphrase after =
    ((config.network_id ≡ some id) × (passphrase ≡ none) × (after ≡ net))
    ⊎ ((meta : NetworkMetadata) × (config.network_id ≡ none)
        × (get_network config.rpc_config http codecs net ≡ (done meta, after))
        × (id ≡ meta.network_id)
        × (passphrase ≡ some meta.passphrase))

module _ (codec : Codec) (bytes : LedgerEntry → Bytes) (laws : IsCodec codec) (disk : Disk)
    (codecs : Codecs) (keys : Keys) (http : Http) (platform : Platform) where
  resolve_network-NamedBy :
      (config : ForkConfig) (net after : Net) (id : Bytes) (passphrase : Option Bytes)
      → NamedBy config http codecs net id passphrase after
      → resolve_network codec disk codecs keys http platform config net
        ≡ (done (id, passphrase), after)
  unfolding resolve_network named_network
  resolve_network-NamedBy config net after id passphrase (inl (own, unnamed, same)) =
      rw (own, unnamed, same) refl
  resolve_network-NamedBy config net after id passphrase (inr (meta, unset, asked, named, told)) =
      rw (unset, asked, named, told) refl

  -- A build whose client starts, whose cache file preloads, whose endpoint answers for the latest ledger and, unless it
  -- is overridden, the network, and whose host takes the diagnostic level, makes an environment with these
  -- settings when the entries of its accounts encode: the pinned ledger or the latest, the pinned time or an hour after
  -- the latest ledger, the network's id, and its protocol version up to the caller's and the host's. Its source knows
  -- every test account as funded with 100,000 XLM at the fork's ledger, and each of its trustlines as authorized,
  -- whatever the cache file had for them.
  pub build_lem :
      (config : ForkConfig) (files : Files) (net net1 net2 : Net) (s : Source)
      (latest : LatestLedger) (id : Bytes) (passphrase : Option Bytes)
      → platform.client_starts ≡ true
      → preload_cache codec disk codecs keys http platform config.cache_path files
          (fresh_source config.fetch_mode)
        ≡ ok s
      → get_latest_ledger config.rpc_config http codecs net ≡ (done latest, net1)
      → NamedBy config http codecs net1 id passphrase net2
      → platform.sets_level config.tracing ≡ true
      → let sequence = or_else config.pinned_ledger latest.sequence in
        let accounts = generate keys config.test_account_count in
        Encode codec bytes (preloads sequence config.test_trustlines accounts)
        → (t : Source) × (build codec disk codecs keys http platform config files net
            ≡ ok (
              done (record {
                env = as_configured config platform.host_max t latest id passphrase;
                cache_path = config.cache_path;
                test_accounts = accounts;
              }),
              net2,
            ))
          × All
              (λ a.
                (view codec t (LedgerKey.account a.public_key)
                  ≡ Known.present (funded_entry a.public_key sequence) none)
                × All
                    (λ asset.
                      view codec t (LedgerKey.trustline a.public_key asset)
                      ≡ Known.present (authorized_entry a.public_key asset sequence) none)
                    config.test_trustlines)
              accounts
  unfolding build with_latest with_network finish_build preload_cache build_env generate
      resolve_network generate_from
  build_lem config files net net1 net2 s latest id passphrase starts preloaded answered named level
        encode =
      let sequence = or_else config.pinned_ledger latest.sequence in
      let (t, minted, knows) =
        mint_lem codec bytes laws keys s sequence config.test_account_count config.test_trustlines
          encode in
      (
        t,
        rw
            (
              starts,
              preloaded,
              answered,
              resolve_network-NamedBy config net1 net2 id passphrase named,
              level,
              build_sequence-or_else config.pinned_ledger latest.sequence,
              minted,
              build_timestamp-start_time config.pinned_timestamp latest.close_time,
              cap_protocol_version-protocol latest.protocol_version config.max_protocol_version
                  platform.host_max,
            )
            refl,
        knows,
      )
