-- ===== src/Build/Examples.antt =====
-- A build with one test account, which has one trustline.
use soroban_fork.Prelude.{◌≡◌, refl, none, [], ◌∷◌, All, inl}
use soroban_fork.Prelude.Outcome.{ok}
use soroban_fork.Ledger.{LedgerKey}
use soroban_fork.Source.{Source}
use soroban_fork.Source.Guarded.{guarded_codec-IsCodec, encodes_to_itself}
use soroban_fork.Source.View.{Known, view}
use soroban_fork.Accounts.{
  default_balance_stroops, ledger_entry, trustline_entry, trustline_preloads, preloads,
  test_account, generate_from, generate,
}
use soroban_fork.Errors.{done}
use soroban_fork.Rpc.{is_retryable, is_success}
use soroban_fork.Rpc.Post.{try_once, read_body, post_attempts, rpc_post, into_result, after_send}
use soroban_fork.Rpc.Fetch.{get_latest_ledger, get_ledger_close_time}
use soroban_fork.Build.{fresh_source, build_sequence, preload_cache, resolve_network, build}
use soroban_fork.Build.Settings.{build_lem, as_configured}
use soroban_fork.Accounts.Genesis.{funded_entry, authorized_entry}
use soroban_fork.Build.Sample.{
  keys, usdc, account, to_bytes, of_bytes, codec, config, platform, disk, codecs, http, start,
  after, latest,
}

build_lem_example :
    (t : Source) × (build codec disk codecs keys http platform config [] start
      ≡ ok (
        done (record {
          env = as_configured config platform.host_max t latest (7 ∷ []) none;
          cache_path = none;
          test_accounts = generate keys 1;
        }),
        after,
      ))
    × All
        (λ a.
          (view codec t (LedgerKey.account a.public_key)
            ≡ Known.present (funded_entry a.public_key 1000) none)
          × All
              (λ asset.
                view codec t (LedgerKey.trustline a.public_key asset)
                ≡ Known.present (authorized_entry a.public_key asset 1000) none)
              (usdc ∷ []))
        (generate keys 1)
unfolding generate generate_from test_account preloads trustline_preloads ledger_entry
    trustline_entry default_balance_stroops to_bytes of_bytes preload_cache get_latest_ledger
    get_ledger_close_time rpc_post post_attempts try_once is_retryable is_success read_body
    into_result after_send resolve_network build_sequence
build_lem_example =
    build_lem codec (λ e. to_bytes e.body) (guarded_codec-IsCodec to_bytes of_bytes) disk codecs
      keys http platform config [] start after after (fresh_source none) latest (7 ∷ []) none refl
      refl refl (inl (refl, refl, refl)) refl
      (
        encodes_to_itself to_bytes of_bytes (ledger_entry account 1000).1 refl,
        (encodes_to_itself to_bytes of_bytes (trustline_entry account usdc 1000).1 refl, tt),
      )
