-- ===== src/Fees/Examples.antt =====
-- The theorems on the fee schedule at a ledger that holds it.
use soroban_fork.Prelude.{◌≡◌, refl, none, some, [], ◌∷◌, ℕ_discrete}
use soroban_fork.Prelude.Int.{pos}
use soroban_fork.Prelude.Outcome.{ok}
use soroban_fork.Prelude.Assoc.{lookup, insert}
use soroban_fork.Ledger.{LedgerKey, ConfigSettingId, key_eq}
use soroban_fork.Source.{Source, FetchMode, get}
use soroban_fork.Source.View.{known}
use soroban_fork.Source.Sample.{sample_codec, sample_client}
use soroban_fork.Fees.{FeeConfiguration, fetch_fee_configuration}
use soroban_fork.Fees.Schedule.{HasSchedule, fetch_fee_configuration-known}

abbrev fees : FeeConfiguration
fees = record {
  fee_per_instruction_increment = pos 25;
  fee_per_disk_read_entry = pos 6250;
  fee_per_write_entry = pos 10000;
  fee_per_disk_read_1kb = pos 1786;
  fee_per_write_1kb = pos 3500;
  fee_per_historical_1kb = pos 16235;
  fee_per_contract_event_1kb = pos 10000;
  fee_per_transaction_size_1kb = pos 1624;
}

abbrev schedule : Source
schedule = record {
  cache =
      (LedgerKey.config_setting ConfigSettingId.contract_bandwidth, some (6 ∷ 9 ∷ 1624 ∷ [], none))
      ∷ (LedgerKey.config_setting ConfigSettingId.contract_events, some (5 ∷ 9 ∷ 10000 ∷ [], none))
      ∷ (
        LedgerKey.config_setting ConfigSettingId.contract_historical_data,
        some (4 ∷ 9 ∷ 16235 ∷ [], none),
      )
      ∷ (
        LedgerKey.config_setting ConfigSettingId.contract_ledger_cost_ext,
        some (3 ∷ 9 ∷ 3500 ∷ [], none),
      )
      ∷ (
        LedgerKey.config_setting ConfigSettingId.contract_ledger_cost,
        some (2 ∷ 9 ∷ 6250 ∷ 10000 ∷ 1786 ∷ [], none),
      )
      ∷ (LedgerKey.config_setting ConfigSettingId.contract_compute, some (1 ∷ 9 ∷ 25 ∷ [], none))
      ∷ [];
  fetches = 6;
  fetch_mode = FetchMode.strict;
}

has_fees : HasSchedule sample_codec schedule fees
unfolding sample_codec known lookup key_eq ℕ_discrete
has_fees = record {
  compute = record { modified = 9; live_until = none; is_known = refl };
  ledger_cost = record { modified = 9; live_until = none; is_known = refl };
  ledger_cost_ext = record { modified = 9; live_until = none; is_known = refl };
  historical_data = record { modified = 9; live_until = none; is_known = refl };
  events = record { modified = 9; live_until = none; is_known = refl };
  bandwidth = record { modified = 9; live_until = none; is_known = refl };
}

fetch_fee_configuration-known_example :
    fetch_fee_configuration sample_codec sample_client schedule ≡ ok (some fees, schedule)
fetch_fee_configuration-known_example =
    fetch_fee_configuration-known sample_codec sample_client schedule fees has_fees

-- In lenient mode the failing client leaves the first setting absent.
abbrev lenient_source : Source
lenient_source = record { cache = []; fetches = 0; fetch_mode = FetchMode.lenient }

abbrev asked_source : Source
asked_source = record {
  cache = (LedgerKey.config_setting ConfigSettingId.contract_compute, none) ∷ [];
  fetches = 1;
  fetch_mode = FetchMode.lenient;
}

unavailable :
    fetch_fee_configuration sample_codec sample_client lenient_source ≡ ok (none, asked_source)
unfolding sample_codec fetch_fee_configuration get lookup insert key_eq ℕ_discrete
unavailable = refl
