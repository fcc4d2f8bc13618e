-- ===== src/Fees/Schedule.antt =====
-- The schedule that the six settings of the ledger make up.
use soroban_fork.Prelude.{ℕ, ◌≡◌, Option, none, some, List, [], ◌∷◌, arith, inl, inr, Option-cases}
use soroban_fork.Prelude.Outcome.{ok, >>=-eq-ok}
use soroban_fork.Ledger.{
  LedgerKey, LedgerEntry, LedgerEntryData, ConfigSettingId, ConfigSettingEntry,
}
use soroban_fork.Source.{Source, Codec, Client, get}
use soroban_fork.Source.View.{view, present, Extends, Extends-refl, Extends-trans}
use soroban_fork.Source.Reads.{get-Extends}
use soroban_fork.Source.Refines.{get-present}
use soroban_fork.Fees.{
  FeeConfiguration, fee_settings, set_fees, set_resolved, apply_setting, apply_settings,
  fetch_fee_configuration,
}

abbrev setting_entry : ℕ → ConfigSettingEntry → LedgerEntry
setting_entry modified c = record {
  last_modified_ledger_seq = modified;
  body = LedgerEntryData.config_setting c;
}

-- The source knows the setting `id` to be `c`.
pub record HasSetting (codec : Codec) (s : Source) (id : ConfigSettingId) (c : ConfigSettingEntry)
    : Type 0 where
  pub modified : ℕ
  pub live_until : Option ℕ
  pub is_known :
      view codec s (LedgerKey.config_setting id) ≡ present (setting_entry modified c) live_until

-- The source knows the six settings, with the values of `f`.
pub record HasSchedule (codec : Codec) (s : Source) (f : FeeConfiguration) : Type 0 where
  pub compute :
      HasSetting codec s ConfigSettingId.contract_compute
        (ConfigSettingEntry.compute f.fee_per_instruction_increment)
  pub ledger_cost : HasSetting codec s ConfigSettingId.contract_ledger_cost (
      ConfigSettingEntry.ledger_cost f.fee_per_disk_read_entry f.fee_per_write_entry
        f.fee_per_disk_read_1kb)
  pub ledger_cost_ext :
      HasSetting codec s ConfigSettingId.contract_ledger_cost_ext
        (ConfigSettingEntry.ledger_cost_ext f.fee_per_write_1kb)
  pub historical_data :
      HasSetting codec s ConfigSettingId.contract_historical_data
        (ConfigSettingEntry.historical_data f.fee_per_historical_1kb)
  pub events :
      HasSetting codec s ConfigSettingId.contract_events
        (ConfigSettingEntry.events f.fee_per_contract_event_1kb)
  pub bandwidth :
      HasSetting codec s ConfigSettingId.contract_bandwidth
        (ConfigSettingEntry.bandwidth f.fee_per_transaction_size_1kb)

module _ (codec : Codec) (client : Client) where
  apply_setting-known :
      (s : Source) (id : ConfigSettingId) (c : ConfigSettingEntry) (cfg : FeeConfiguration)
      → HasSetting codec s id c
      → apply_setting codec client s id cfg ≡ ok (set_fees c cfg, s)
  unfolding apply_setting
  apply_setting-known s id c cfg h = rw (get-present codec client s _ _ h.live_until h.is_known)

  -- When the source knows the six settings, the schedule is exactly theirs, each fee from its own
  -- setting, and the source stays as it is: nothing is fetched.
  pub fetch_fee_configuration-known :
      (s : Source) (f : FeeConfiguration)
      → HasSchedule codec s f
      → fetch_fee_configuration codec client s ≡ ok (some f, s)
  unfolding fetch_fee_configuration set_fees
  fetch_fee_configuration-known s f h = rw (apply_setting-known s _ _ _ h.compute) (
      rw (apply_setting-known s _ _ _ h.ledger_cost) (
        rw (apply_setting-known s _ _ _ h.ledger_cost_ext) (
          rw (apply_setting-known s _ _ _ h.historical_data) (
            rw (apply_setting-known s _ _ _ h.events)
              (rw (apply_setting-known s _ _ _ h.bandwidth))))))

  apply_setting-Extends :
      (s : Source) (id : ConfigSettingId) (cfg : FeeConfiguration) {r : Option FeeConfiguration}
      {t : Source}
      → apply_setting codec client s id cfg ≡ ok (r, t)
      → Extends s t
  unfolding apply_setting
  apply_setting-Extends s id cfg {t = t} h =
      let ((resolved, u), first, rest) =
        >>=-eq-ok (get codec client s (LedgerKey.config_setting id))
          (λ p. ok (set_resolved p.0 cfg, p.1)) h in
      let same : t ≡ u = ground arith in
      rw same (get-Extends codec client s (LedgerKey.config_setting id) first)

  apply_settings-Extends :
      (ids : List ConfigSettingId) (s : Source) (cfg : FeeConfiguration)
      {r : Option FeeConfiguration} {t : Source}
      → apply_settings codec client ids s cfg ≡ ok (r, t)
      → Extends s t
  unfolding apply_settings
  apply_settings-Extends [] s cfg {t = t} h =
      let same : t ≡ s = ground arith in rw same (Extends-refl s)
  apply_settings-Extends (id ∷ ids) s cfg {r = r} {t = t} h =
      let ((applied, u), first, rest) =
        >>=-eq-ok (apply_setting codec client s id cfg)
          (λ p. elim p.0 [
            | none ↦ ok (none, p.1)
            | some cfg' ↦ apply_settings codec client ids p.1 cfg'
          ])
          h in
      let reached = apply_setting-Extends s id cfg first in
      elim (Option-cases applied) [
        | inl e ↦ let same : t ≡ u = ground arith in rw same reached
        | inr (cfg', e) ↦
            let more : apply_settings codec client ids u cfg' ≡ ok (r, t) = ground arith in
            Extends-trans reached (apply_settings-Extends ids u cfg' more)
      ]

  -- Resolving the schedule keeps all that the source knew, also when it fails.
  pub fetch_fee_configuration-Extends :
      (s : Source) {r : Option FeeConfiguration} {t : Source}
      → fetch_fee_configuration codec client s ≡ ok (r, t)
      → Extends s t
  unfolding fetch_fee_configuration
  fetch_fee_configuration-Extends s h = apply_settings-Extends fee_settings s _ h
