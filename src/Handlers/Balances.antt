-- ===== src/Handlers/Balances.antt =====
-- What fork_setBalance has done to the balance of an account, of a trustline, or of a token's holder.
use soroban_fork.Prelude.{ℕ, ◌≡◌, Option, none, some}
use soroban_fork.Prelude.Int.{ℤ, pos}
use soroban_fork.Xdr.{Bytes}
use soroban_fork.Ledger.{LedgerEntry, LedgerEntryData}
use soroban_fork.Source.{EntryWithLiveUntil}
use soroban_fork.Actor.Host.{World}
use soroban_fork.Handlers.{Wire}
use soroban_fork.Handlers.Params.{AssetWire, Outside}
use soroban_fork.Handlers.Balance.{ClassicAsset, lumens, issued, asset_of_code, default_body}

-- The balance of an entry.
abbrev pub balance_of : LedgerEntryData → Option ℤ
balance_of (LedgerEntryData.account a) = some a.balance
balance_of (LedgerEntryData.trustline t) = some t.balance
balance_of _ = none

-- The entry without its balance.
abbrev pub without_balance : LedgerEntryData → LedgerEntryData
without_balance (LedgerEntryData.account a) = LedgerEntryData.account (record a { balance = pos 0 })
without_balance (LedgerEntryData.trustline t) =
    LedgerEntryData.trustline (record t { balance = pos 0 })
without_balance body = body

-- The entry is of the kind that holds balances of the asset.
abbrev pub Holds : ClassicAsset → LedgerEntryData → Type 0
Holds lumens (LedgerEntryData.account a) = Unit
Holds (issued asset) (LedgerEntryData.trustline t) = Unit
Holds _ body = ⊥

-- What is known of a balance's key: nothing is there, or an entry of its kind.
abbrev pub Fits : ClassicAsset → Option EntryWithLiveUntil → Type 0
Fits asset none = Unit
Fits asset (some (e, live_until)) = Holds asset e.body

-- The entry as it is to become: it has the balance and the ledger, and for the rest is what it was, or the default.
abbrev pub Becomes : Bytes → ClassicAsset → ℕ → ℕ → Option EntryWithLiveUntil → LedgerEntry → Type 0
Becomes account asset amount ledger before e =
    (balance_of e.body ≡ some (pos amount))
    × (e.last_modified_ledger_seq ≡ ledger)
    × (without_balance e.body ≡ (elim before [
      | none ↦ without_balance (default_body account asset amount ledger)
      | some (old, live_until) ↦ without_balance old.body
    ]))

module _ (w : World) (wire : Wire) (outside : Outside) (now : ℕ) where
  -- The asset that the parameters name, when it is a classic one.
  abbrev pub Names : AssetWire → ClassicAsset → Type 0
  Names AssetWire.native lumens = Unit
  Names (AssetWire.credit code issuer_text) (issued asset) =
      (issuer : Bytes) × (outside.account_strkey issuer_text ≡ some issuer)
      × (asset_of_code code issuer ≡ some asset)
  Names _ asset = ⊥
