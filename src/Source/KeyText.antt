-- ===== src/Source/KeyText.antt =====
-- `key_display` of src/source.rs: a key's short text in the log of fetches.
mod Examples
use soroban_fork.Prelude.{
  ◌-◌, Bool, List, [], ◌∷◌, ◌++◌, codes, ltb, if◌then◌else◌, length, take, drop,
}
use soroban_fork.Xdr.{Bytes, ScAddress, ScVal}
use soroban_fork.Ledger.{LedgerKey, ContractDataDurability}
use soroban_fork.Render.{Texts}
use soroban_fork.Hex.{hex_encode}

unfoldable pub abbreviate : Bytes → Bytes
abbreviate s = if ltb 12 (length s) then take 4 s ++ (codes "..." ++ drop (length s - 4) s) else s

unfoldable pub durability_text : ContractDataDurability → Bytes
durability_text ContractDataDurability.temporary = codes "temp"
durability_text ContractDataDurability.persistent = codes "persistent"

-- An instance's key has no durability in its text.
unfoldable pub entry_text : ScVal → ContractDataDurability → Bytes
unfolding durability_text
entry_text ScVal.ledger_key_contract_instance durability = codes "instance"
entry_text _ durability = durability_text durability

module _ (texts : Texts) where
  unfoldable pub sc_address_short : ScAddress → Bytes
  sc_address_short (ScAddress.contract hash) = abbreviate (texts.contract_strkey hash)
  sc_address_short (ScAddress.account id) = abbreviate (texts.account_strkey id)
  sc_address_short (ScAddress.other_address n) = abbreviate (codes "???")

  unfoldable pub account_id_short : Bytes → Bytes
  account_id_short id = abbreviate (texts.account_strkey id)

  unfoldable pub key_display : LedgerKey → Bytes
  key_display (LedgerKey.contract_data address key durability) =
      codes "ContractData("
      ++ (sc_address_short address ++ (codes ", " ++ (entry_text key durability ++ codes ")")))
  key_display (LedgerKey.contract_code hash) =
      codes "ContractCode(" ++ (hex_encode (take 4 hash) ++ codes "...)")
  key_display (LedgerKey.account id) = codes "Account(" ++ (account_id_short id ++ codes ")")
  key_display (LedgerKey.trustline id asset) =
      codes "Trustline(" ++ (account_id_short id ++ codes ")")
  key_display (LedgerKey.config_setting id) = codes "ConfigSetting"
  key_display (LedgerKey.ttl hash) = codes "Ttl"
  key_display (LedgerKey.other_key n) = codes "Other"
