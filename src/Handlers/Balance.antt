-- ===== src/Handlers/Balance.antt =====
-- handle_fork_set_balance of src/server/handlers.rs: the balances of accounts and of trustlines.
use soroban_fork.Prelude.{
  ℕ, zero, suc, ◌-◌, ◌*◌, ◌^◌, ◌%◌, Option, none, some, [], ◌∷◌, ◌++◌, length, leb, ltb, ◌==◌,
  if◌then◌else◌,
}
use soroban_fork.Prelude.Int.{ℤ, pos, negsuc}
use soroban_fork.Prelude.Word.{i64_max}
use soroban_fork.Xdr.{Bytes}
use soroban_fork.Ledger.{
  LedgerKey, LedgerEntry, LedgerEntryData, AccountEntry, TrustLineEntry, TrustLineAsset,
}
use soroban_fork.Actor.Host.{World}
use soroban_fork.Actor.Messages.{Command, ResolvedEntry}
use soroban_fork.Handlers.{
  Rpc, ◌>>=◌, respond, or_refuse, JsonRpcError, Wire, send, as_entry_set, as_ledger_entries,
}
use soroban_fork.Handlers.Params.{AssetWire, SetBalanceParams, Outside}
use soroban_fork.Handlers.Install.{first_entry}
use soroban_fork.Handlers.Token.{handle_set_token_balance}

-- A classic asset, once its issuer and its code have been read.
pub data ClassicAsset : Type 0 where
  lumens : ClassicAsset
  issued : TrustLineAsset → ClassicAsset

-- `[0u8; n]`
abbrev zeros : ℕ → Bytes
zeros zero = []
zeros (suc n) = 0 ∷ zeros n

-- A code of the bytes of a text, padded with zero bytes to four or to twelve.
unfoldable pub asset_of_code : Bytes → Bytes → Option TrustLineAsset
asset_of_code code issuer =
    if length code == 0
    then none
    else if leb (length code) 4
    then some (TrustLineAsset.credit_alphanum4 (code ++ zeros (4 - length code)) issuer)
    else if leb (length code) 12
    then some (TrustLineAsset.credit_alphanum12 (code ++ zeros (12 - length code)) issuer)
    else none

-- `parse().filter(|amount| amount >= 0)`, where the code has two errors of the same kind
unfoldable pub not_negative : Option ℤ → Option ℕ
not_negative none = none
not_negative (some (pos n)) = some n
not_negative (some (negsuc n)) = none

-- `(ledger as i64) << 32`: the bits beyond the 63rd are the sign's and are lost.
unfoldable pub first_seq_num : ℕ → ℤ
first_seq_num ledger =
    let bits = ledger * 2 ^ 32 % 2 ^ 64 in
    if ltb bits (2 ^ 63) then pos bits else negsuc (2 ^ 64 - 1 - bits)

unfoldable pub default_account : Bytes → ℕ → ℕ → AccountEntry
default_account account amount ledger = record {
  account_id = account;
  balance = pos amount;
  seq_num = first_seq_num ledger;
  num_sub_entries = 0;
  inflation_dest = none;
  flags = 0;
  home_domain = [];
  thresholds = 1 ∷ 0 ∷ 0 ∷ 0 ∷ [];
  signers = [];
}

unfoldable pub default_trustline : Bytes → TrustLineAsset → ℕ → TrustLineEntry
default_trustline account asset amount = record {
  account_id = account;
  asset = asset;
  balance = pos amount;
  limit = pos i64_max;
  flags = 1;
}

-- The entry that is there with another balance; none where it is not an entry of the key's kind.
unfoldable pub with_balance : ClassicAsset → ℕ → LedgerEntryData → Option LedgerEntryData
with_balance lumens amount (LedgerEntryData.account a) =
    some (LedgerEntryData.account (record a { balance = pos amount }))
with_balance (issued asset) amount (LedgerEntryData.trustline t) =
    some (LedgerEntryData.trustline (record t { balance = pos amount }))
with_balance _ amount _ = none

unfoldable pub default_body : Bytes → ClassicAsset → ℕ → ℕ → LedgerEntryData
default_body account lumens amount ledger =
    LedgerEntryData.account (default_account account amount ledger)
default_body account (issued asset) amount ledger =
    LedgerEntryData.trustline (default_trustline account asset amount)

unfoldable pub balance_key : Bytes → ClassicAsset → LedgerKey
balance_key account lumens = LedgerKey.account account
balance_key account (issued asset) = LedgerKey.trustline account asset

-- The entry to write, from the entry that is there and the latest ledger; none is an internal error.
unfoldable pub new_balance_entry : Bytes → ClassicAsset → ℕ → ResolvedEntry → ℕ → Option LedgerEntry
new_balance_entry account asset amount none ledger =
    some (record {
      last_modified_ledger_seq = ledger;
      body = default_body account asset amount ledger;
    })
new_balance_entry account asset amount (some (key, found, live_until)) ledger =
    elim (with_balance asset amount found.body) [
      | none ↦ none
      | some body ↦ some (record { last_modified_ledger_seq = ledger; body = body })
    ]

-- `asset.unwrap_or(native)`
unfoldable pub asset_or_native : Option AssetWire → AssetWire
asset_or_native none = AssetWire.native
asset_or_native (some asset) = asset

module _ (w : World) (wire : Wire) (outside : Outside) (now : ℕ) where
  -- The response's `ok` is always true: the response is its latest ledger.
  unfoldable pub set_classic_balance : Bytes → ClassicAsset → ℕ → Rpc ℕ
  set_classic_balance account asset amount = do
    let key = balance_key account asset
    existing ← send w wire now as_ledger_entries (Command.get_ledger_entries (key ∷ []))
    entry ← or_refuse JsonRpcError.internal_error (
        new_balance_entry account asset amount (first_entry existing.entries)
          existing.latest_ledger)
    _ ← send w wire now as_entry_set (Command.set_ledger_entry key entry none)
    respond existing.latest_ledger

  unfoldable pub handle_asset : Bytes → Bytes → AssetWire → Rpc ℕ
  handle_asset account amount (AssetWire.token contract_text) =
      handle_set_token_balance w wire outside now account amount contract_text
  handle_asset account amount AssetWire.native = do
    stroops ← or_refuse JsonRpcError.invalid_params (not_negative (outside.parse_i64 amount))
    set_classic_balance account lumens stroops
  handle_asset account amount (AssetWire.credit code issuer_text) = do
    stroops ← or_refuse JsonRpcError.invalid_params (not_negative (outside.parse_i64 amount))
    issuer ← or_refuse JsonRpcError.invalid_params (outside.account_strkey issuer_text)
    asset ← or_refuse JsonRpcError.invalid_params (asset_of_code code issuer)
    set_classic_balance account (issued asset) stroops

  unfoldable pub handle_fork_set_balance : SetBalanceParams → Rpc ℕ
  handle_fork_set_balance params = do
    account ← or_refuse JsonRpcError.invalid_params (outside.account_strkey params.account)
    handle_asset account params.amount (asset_or_native params.asset)
