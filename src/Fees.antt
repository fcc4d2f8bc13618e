-- ===== src/Fees.antt =====
-- src/fees.rs: the fee schedule, read from six config settings through the snapshot source.
pub mod Schedule
mod Examples
use soroban_fork.Prelude.{ℕ, Option, none, some, List, [], ◌∷◌}
use soroban_fork.Prelude.Int.{ℤ, pos}
use soroban_fork.Prelude.Outcome.{Outcome, ok, panic, ◌>>=◌}
use soroban_fork.Ledger.{
  LedgerKey, LedgerEntry, LedgerEntryData, ConfigSettingId, ConfigSettingEntry,
}
use soroban_fork.Source.{Source, Codec, Client, EntryWithLiveUntil, get}

pub record FeeConfiguration : Type 0 where
  pub fee_per_instruction_increment : ℤ
  pub fee_per_disk_read_entry : ℤ
  pub fee_per_write_entry : ℤ
  pub fee_per_disk_read_1kb : ℤ
  pub fee_per_write_1kb : ℤ
  pub fee_per_historical_1kb : ℤ
  pub fee_per_contract_event_1kb : ℤ
  pub fee_per_transaction_size_1kb : ℤ

-- FeeConfiguration::default()
abbrev pub default_fees : FeeConfiguration
default_fees = record {
  fee_per_instruction_increment = pos 0;
  fee_per_disk_read_entry = pos 0;
  fee_per_write_entry = pos 0;
  fee_per_disk_read_1kb = pos 0;
  fee_per_write_1kb = pos 0;
  fee_per_historical_1kb = pos 0;
  fee_per_contract_event_1kb = pos 0;
  fee_per_transaction_size_1kb = pos 0;
}

-- The match on the setting's variant; `none` is the error of an unexpected variant.
pub set_fees : ConfigSettingEntry → FeeConfiguration → Option FeeConfiguration
set_fees (ConfigSettingEntry.compute rate) cfg =
    some (record cfg { fee_per_instruction_increment = rate })
set_fees (ConfigSettingEntry.ledger_cost read_entry write_entry read_1kb) cfg = some (record cfg {
  fee_per_disk_read_entry = read_entry;
  fee_per_write_entry = write_entry;
  fee_per_disk_read_1kb = read_1kb;
})
set_fees (ConfigSettingEntry.ledger_cost_ext write_1kb) cfg =
    some (record cfg { fee_per_write_1kb = write_1kb })
set_fees (ConfigSettingEntry.historical_data fee) cfg =
    some (record cfg { fee_per_historical_1kb = fee })
set_fees (ConfigSettingEntry.events fee) cfg =
    some (record cfg { fee_per_contract_event_1kb = fee })
set_fees (ConfigSettingEntry.bandwidth fee) cfg =
    some (record cfg { fee_per_transaction_size_1kb = fee })
set_fees (ConfigSettingEntry.other_entry n) cfg = none

-- What a resolved entry does to the schedule; `none` is an error.
pub set_resolved : Option EntryWithLiveUntil → FeeConfiguration → Option FeeConfiguration
unfolding set_fees
set_resolved none cfg = none
set_resolved (some (e, live_until)) cfg = elim e.body [
  | LedgerEntryData.config_setting setting ↦ set_fees setting cfg
  | _ ↦ none
]

pub fee_settings : List ConfigSettingId
fee_settings =
    ConfigSettingId.contract_compute ∷ ConfigSettingId.contract_ledger_cost
    ∷ ConfigSettingId.contract_ledger_cost_ext ∷ ConfigSettingId.contract_historical_data
    ∷ ConfigSettingId.contract_events ∷ ConfigSettingId.contract_bandwidth ∷ []

module _ (codec : Codec) (client : Client) where
  unfoldable pub apply_setting :
      Source → ConfigSettingId → FeeConfiguration → Outcome (Option FeeConfiguration × Source)
  unfolding set_resolved
  apply_setting s id cfg = do
    (resolved, t) ← get codec client s (LedgerKey.config_setting id)
    ok (set_resolved resolved cfg, t)

  -- The chain of `apply_setting(..)?` calls.
  unfoldable pub apply_settings :
      List ConfigSettingId → Source → FeeConfiguration → Outcome (Option FeeConfiguration × Source)
  unfolding apply_setting
  apply_settings [] s cfg = ok (some cfg, s)
  apply_settings (id ∷ ids) s cfg = do
    (applied, t) ← apply_setting s id cfg
    elim applied [ none ↦ ok (none, t) | some cfg' ↦ apply_settings ids t cfg' ]

  unfoldable pub fetch_fee_configuration : Source → Outcome (Option FeeConfiguration × Source)
  unfolding apply_settings fee_settings
  fetch_fee_configuration s = apply_settings fee_settings s default_fees
