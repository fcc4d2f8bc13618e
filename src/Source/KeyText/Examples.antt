-- ===== src/Source/KeyText/Examples.antt =====
-- The texts of keys, after the tests of src/source.rs.
use soroban_fork.Prelude.{◌≡◌, refl, [], ◌∷◌, codes}
use soroban_fork.Xdr.{ScAddress, ScVal}
use soroban_fork.Ledger.{LedgerKey, ContractDataDurability}
use soroban_fork.Render.{Texts}
use soroban_fork.Hex.{hex_encode, hex_digit}
use soroban_fork.Source.KeyText.{key_display, sc_address_short, abbreviate, entry_text}

abbrev sample_texts : Texts
sample_texts = record {
  contract_strkey = λ hash. codes "CDLZFC3SYJYDZT7K67VZ75HPJVIEUVNIXF47ZG2FB2RMQQVU2HHGCYSC";
  account_strkey = λ key. codes "G";
  debug = λ v. codes "?";
  debug_address = λ a. codes "?";
}

instance_text :
    key_display sample_texts (
      LedgerKey.contract_data
        (ScAddress.contract [])
        ScVal.ledger_key_contract_instance
        ContractDataDurability.persistent)
    ≡ codes "ContractData(CDLZ...CYSC, instance)"
unfolding key_display sc_address_short abbreviate entry_text
instance_text = refl

code_text :
    key_display sample_texts (LedgerKey.contract_code (0xab ∷ 0xcd ∷ 0xef ∷ 1 ∷ 2 ∷ []))
    ≡ codes "ContractCode(abcdef01...)"
unfolding key_display hex_encode hex_digit
code_text = refl
