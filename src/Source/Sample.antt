-- ===== src/Source/Sample.antt =====
-- Test data: a codec of simple entries, a client, and entries of a small ledger.
use soroban_fork.Prelude.{ℕ, zero, suc, ◌≡◌, Option, none, some, List, [], ◌∷◌, arith}
use soroban_fork.Prelude.Int.{ℤ, pos, negsuc}
use soroban_fork.Xdr.{Bytes}
use soroban_fork.Ledger.{LedgerKey, LedgerEntry, LedgerEntryData, ConfigSettingEntry}
use soroban_fork.Source.{Codec, IsCodec, Client, Fetched}

abbrev pub config_entry : ℕ → ConfigSettingEntry → LedgerEntry
config_entry m c = record { last_modified_ledger_seq = m; body = LedgerEntryData.config_setting c }

abbrev pub plain_account : ℕ → ℕ → ℕ → ℕ → ℕ → Bytes → LedgerEntry
plain_account m balance seq sub flags id = record {
  last_modified_ledger_seq = m;
  body = LedgerEntryData.account (record {
    account_id = id;
    balance = pos balance;
    seq_num = pos seq;
    num_sub_entries = sub;
    inflation_dest = none;
    flags = flags;
    home_domain = [];
    thresholds = [];
    signers = [];
  });
}

unfoldable pub sample_decode : Bytes → Option LedgerEntry
sample_decode (zero ∷ m ∷ balance ∷ seq ∷ sub ∷ flags ∷ id) =
    some (plain_account m balance seq sub flags id)
sample_decode ((suc zero) ∷ m ∷ n ∷ []) = some (config_entry m (ConfigSettingEntry.compute (pos n)))
sample_decode ((suc (suc zero)) ∷ m ∷ a ∷ b ∷ c ∷ []) =
    some (config_entry m (ConfigSettingEntry.ledger_cost (pos a) (pos b) (pos c)))
sample_decode ((suc (suc (suc zero))) ∷ m ∷ n ∷ []) =
    some (config_entry m (ConfigSettingEntry.ledger_cost_ext (pos n)))
sample_decode ((suc (suc (suc (suc zero)))) ∷ m ∷ n ∷ []) =
    some (config_entry m (ConfigSettingEntry.historical_data (pos n)))
sample_decode ((suc (suc (suc (suc (suc zero))))) ∷ m ∷ n ∷ []) =
    some (config_entry m (ConfigSettingEntry.events (pos n)))
sample_decode ((suc (suc (suc (suc (suc (suc zero)))))) ∷ m ∷ n ∷ []) =
    some (config_entry m (ConfigSettingEntry.bandwidth (pos n)))
sample_decode _ = none

unfoldable pub encode_account :
    ℕ → Bytes → ℤ → ℤ → ℕ → Option Bytes → ℕ → Bytes → Bytes → List (Bytes × ℕ) → Option Bytes
encode_account m id (pos balance) (pos seq) sub none flags [] [] [] =
    some (0 ∷ m ∷ balance ∷ seq ∷ sub ∷ flags ∷ id)
encode_account _ _ _ _ _ _ _ _ _ _ = none

unfoldable pub encode_config : ℕ → ConfigSettingEntry → Option Bytes
encode_config m (ConfigSettingEntry.compute (pos n)) = some (1 ∷ m ∷ n ∷ [])
encode_config m (ConfigSettingEntry.ledger_cost (pos a) (pos b) (pos c)) =
    some (2 ∷ m ∷ a ∷ b ∷ c ∷ [])
encode_config m (ConfigSettingEntry.ledger_cost_ext (pos n)) = some (3 ∷ m ∷ n ∷ [])
encode_config m (ConfigSettingEntry.historical_data (pos n)) = some (4 ∷ m ∷ n ∷ [])
encode_config m (ConfigSettingEntry.events (pos n)) = some (5 ∷ m ∷ n ∷ [])
encode_config m (ConfigSettingEntry.bandwidth (pos n)) = some (6 ∷ m ∷ n ∷ [])
encode_config m _ = none

unfoldable pub encode_body : ℕ → LedgerEntryData → Option Bytes
encode_body m (LedgerEntryData.account a) =
    encode_account m a.account_id a.balance a.seq_num a.num_sub_entries a.inflation_dest a.flags
      a.home_domain a.thresholds a.signers
encode_body m (LedgerEntryData.config_setting c) = encode_config m c
encode_body m _ = none

unfoldable pub sample_codec : Codec
unfolding sample_decode encode_body encode_account encode_config
sample_codec = record {
  encode = λ e. encode_body e.last_modified_ledger_seq e.body;
  decode = sample_decode;
  decode_key = λ b. some (LedgerKey.account b);
}

account_round :
    (m : ℕ) (id : Bytes) (bal seq : ℤ) (sub : ℕ) (infl : Option Bytes) (flags : ℕ) (dom thr : Bytes)
    (sig : List (Bytes × ℕ)) {b : Bytes}
    → encode_account m id bal seq sub infl flags dom thr sig ≡ some b
    → sample_decode b
      ≡ some (record {
        last_modified_ledger_seq = m;
        body = LedgerEntryData.account (record {
          account_id = id;
          balance = bal;
          seq_num = seq;
          num_sub_entries = sub;
          inflation_dest = infl;
          flags = flags;
          home_domain = dom;
          thresholds = thr;
          signers = sig;
        });
      })
unfolding encode_account sample_decode
account_round m id (pos b) (pos n) sub none flags [] [] [] h = ground arith
account_round m id (negsuc b) n sub infl flags dom thr sig h = absurd (ground arith)
account_round m id (pos b) (negsuc n) sub infl flags dom thr sig h = absurd (ground arith)
account_round m id (pos b) (pos n) sub (some i) flags dom thr sig h = absurd (ground arith)
account_round m id (pos b) (pos n) sub none flags (x ∷ dom) thr sig h = absurd (ground arith)
account_round m id (pos b) (pos n) sub none flags [] (x ∷ thr) sig h = absurd (ground arith)
account_round m id (pos b) (pos n) sub none flags [] [] (x ∷ sig) h = absurd (ground arith)

config_round :
    (m : ℕ) (c : ConfigSettingEntry) {b : Bytes}
    → encode_config m c ≡ some b
    → sample_decode b ≡ some (config_entry m c)
unfolding encode_config sample_decode
config_round m (ConfigSettingEntry.compute (pos n)) h = ground arith
config_round m (ConfigSettingEntry.compute (negsuc n)) h = absurd (ground arith)
config_round m (ConfigSettingEntry.ledger_cost (pos x) (pos y) (pos z)) h = ground arith
config_round m (ConfigSettingEntry.ledger_cost (pos x) (pos y) (negsuc z)) h = absurd (ground arith)
config_round m (ConfigSettingEntry.ledger_cost (pos x) (negsuc y) z) h = absurd (ground arith)
config_round m (ConfigSettingEntry.ledger_cost (negsuc x) y z) h = absurd (ground arith)
config_round m (ConfigSettingEntry.ledger_cost_ext (pos n)) h = ground arith
config_round m (ConfigSettingEntry.ledger_cost_ext (negsuc n)) h = absurd (ground arith)
config_round m (ConfigSettingEntry.historical_data (pos n)) h = ground arith
config_round m (ConfigSettingEntry.historical_data (negsuc n)) h = absurd (ground arith)
config_round m (ConfigSettingEntry.events (pos n)) h = ground arith
config_round m (ConfigSettingEntry.events (negsuc n)) h = absurd (ground arith)
config_round m (ConfigSettingEntry.bandwidth (pos n)) h = ground arith
config_round m (ConfigSettingEntry.bandwidth (negsuc n)) h = absurd (ground arith)
config_round m (ConfigSettingEntry.other_entry n) h = absurd (ground arith)

body_round :
    (m : ℕ) (d : LedgerEntryData) {b : Bytes}
    → encode_body m d ≡ some b
    → sample_decode b ≡ some (record { last_modified_ledger_seq = m; body = d })
unfolding encode_body
body_round m (LedgerEntryData.account a) h =
    account_round m a.account_id a.balance a.seq_num a.num_sub_entries a.inflation_dest a.flags
      a.home_domain a.thresholds a.signers h
body_round m (LedgerEntryData.config_setting c) h = config_round m c h
body_round m (LedgerEntryData.trustline t) h = absurd (ground arith)
body_round m (LedgerEntryData.contract_data t) h = absurd (ground arith)
body_round m (LedgerEntryData.contract_code t) h = absurd (ground arith)
body_round m (LedgerEntryData.other_data t) h = absurd (ground arith)

pub sample_codec-IsCodec : IsCodec sample_codec
unfolding sample_codec
sample_codec-IsCodec e b h = body_round e.last_modified_ledger_seq e.body h

abbrev pub alice : Bytes
alice = 1 ∷ 2 ∷ []

abbrev pub bob : Bytes
bob = 3 ∷ []

abbrev pub alice_entry : LedgerEntry
alice_entry = plain_account 9 100 7 0 0 alice

abbrev pub alice_bytes : Bytes
alice_bytes = 0 ∷ 9 ∷ 100 ∷ 7 ∷ 0 ∷ 0 ∷ alice

-- The client has Alice's account and no other entry; config settings fail.
abbrev pub sample_client : Client
sample_client n (LedgerKey.account (_ ∷ _ ∷ rest)) = Fetched.found alice_entry none
sample_client n (LedgerKey.config_setting id) = Fetched.failed
sample_client n _ = Fetched.absent
