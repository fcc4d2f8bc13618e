-- ===== src/Accounts.antt =====
-- src/test_accounts.rs: the funded accounts that a fork starts with. The strkey texts of their keys are left out.
pub mod Minted
pub mod Genesis
use soroban_fork.Prelude.{
  ℕ, zero, suc, ◌+◌, ◌-◌, ◌*◌, ◌^◌, ◌%◌, ltb, if◌then◌else◌, none, Option, List, [], ◌∷◌, ◌++◌,
  codes,
}
use soroban_fork.Prelude.Int.{ℤ, pos, negsuc}
use soroban_fork.Prelude.Outcome.{Outcome, ok, or_panic, ◌>>=◌}
use soroban_fork.Prelude.Word.{i64_max}
use soroban_fork.Xdr.{Bytes}
use soroban_fork.Ledger.{LedgerKey, LedgerEntry, LedgerEntryData, TrustLineAsset}
use soroban_fork.Source.{Source, Codec, preload}
use soroban_fork.Prelude.Decimal.{decimal}
use soroban_fork.Handlers.Balance.{first_seq_num}

pub record TestAccount : Type 0 where
  pub secret_seed : Bytes
  pub public_key : Bytes
  pub balance_stroops : ℤ

-- SHA-256, the public key of an Ed25519 seed, and the reading of a strkey.
pub record Keys : Type 0 where
  pub sha256 : Bytes → Bytes
  pub verifying_key : Bytes → Bytes
  pub account_strkey : Bytes → Option Bytes

unfoldable pub default_balance_stroops : ℤ
default_balance_stroops = pos (100000 * 10000000)

unfoldable pub ledger_entry : TestAccount → ℕ → LedgerKey × LedgerEntry
ledger_entry a fork_ledger_seq = (
  LedgerKey.account a.public_key,
  record {
    last_modified_ledger_seq = fork_ledger_seq;
    body = LedgerEntryData.account (record {
      account_id = a.public_key;
      balance = a.balance_stroops;
      seq_num = first_seq_num fork_ledger_seq;
      num_sub_entries = 0;
      inflation_dest = none;
      flags = 0;
      home_domain = [];
      thresholds = 1 ∷ 0 ∷ 0 ∷ 0 ∷ [];
      signers = [];
    });
  },
)

unfoldable pub trustline_entry : TestAccount → TrustLineAsset → ℕ → LedgerKey × LedgerEntry
trustline_entry a asset fork_ledger_seq = (
  LedgerKey.trustline a.public_key asset,
  record {
    last_modified_ledger_seq = fork_ledger_seq;
    body = LedgerEntryData.trustline (record {
      account_id = a.public_key;
      asset = asset;
      balance = pos 0;
      limit = pos i64_max;
      flags = 1;
    });
  },
)

-- The preloads of one account's trustlines, and of all accounts.
unfoldable pub trustline_preloads :
    TestAccount → ℕ → List TrustLineAsset → List (LedgerKey × LedgerEntry × Option ℕ)
trustline_preloads a sequence [] = []
trustline_preloads a sequence (asset ∷ assets) =
    let (key, entry) = trustline_entry a asset sequence in
    (key, entry, none) ∷ trustline_preloads a sequence assets

unfoldable pub preloads :
    ℕ → List TrustLineAsset → List TestAccount → List (LedgerKey × LedgerEntry × Option ℕ)
preloads sequence assets [] = []
preloads sequence assets (a ∷ accounts) =
    let (key, entry) = ledger_entry a sequence in
    (key, entry, none) ∷ trustline_preloads a sequence assets ++ preloads sequence assets accounts

module _ (keys : Keys) where
  -- `expect` on the issuer's strkey
  unfoldable pub usdc_mainnet_trustline_asset : Outcome TrustLineAsset
  usdc_mainnet_trustline_asset = do
    issuer ←
        or_panic
          (keys.account_strkey (codes "GA5ZSEJYB37JRC5AVCIA5MOP4RHTM335X2KGX3IHOJAPP5RE34K4KZVN"))
    ok (TrustLineAsset.credit_alphanum4 (codes "USDC") issuer)

  unfoldable pub test_account : ℕ → TestAccount
  test_account i =
      let seed = keys.sha256 (codes "soroban-fork test account " ++ decimal 20 i) in
      record {
        secret_seed = seed;
        public_key = keys.verifying_key seed;
        balance_stroops = default_balance_stroops;
      }

  -- The accounts from a number on, so many of them.
  unfoldable pub generate_from : ℕ → ℕ → List TestAccount
  generate_from first zero = []
  generate_from first (suc n) = test_account first ∷ generate_from (suc first) n

  unfoldable pub generate : ℕ → List TestAccount
  generate n = generate_from 0 n

  -- The end of `build`: the accounts are minted into the source.
  unfoldable pub mint : Codec → Source → ℕ → ℕ → List TrustLineAsset → Outcome Source
  mint codec s sequence n assets = preload codec s (preloads sequence assets (generate n))
