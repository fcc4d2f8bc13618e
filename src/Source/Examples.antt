-- ===== src/Source/Examples.antt =====
-- The theorems on the source at a small ledger.
use soroban_fork.Prelude.{
  ◌≡◌, refl, true, false, none, some, List, [], ◌∷◌, min, ℕ_discrete, All, ◌≢◌,
}
use soroban_fork.Prelude.Int.{pos}
use soroban_fork.Prelude.Outcome.{ok}
use soroban_fork.Prelude.Word.{u32_max}
use soroban_fork.Prelude.Assoc.{lookup, insert}
use soroban_fork.Ledger.{LedgerKey, LedgerEntry, AccountEntry, ledger_key_eq, key_eq}
use soroban_fork.Source.{
  Source, FetchMode, LedgerEntryChange, get, set_entry, apply_changes, entries, new,
}
use soroban_fork.Source.View.{view}
use soroban_fork.Source.Refines.{GetSpec, get-GetSpec}
use soroban_fork.Source.Writes.{
  get-set_entry, apply_changes_lem, writes, last_write, or_before, HasKey,
}
use soroban_fork.Source.Invariant.{Step, Reachable, start, next}
use soroban_fork.Source.Export.{exported, lookup-entries}
use soroban_fork.Source.Sample.{
  sample_codec, sample_codec-IsCodec, sample_client, alice, bob, alice_entry, alice_bytes,
  plain_account,
}

abbrev alice_key : LedgerKey
alice_key = LedgerKey.account alice

abbrev bob_key : LedgerKey
bob_key = LedgerKey.account bob

abbrev empty_source : Source
empty_source = record { cache = []; fetches = 0; fetch_mode = FetchMode.strict }

abbrev read_source : Source
read_source = record {
  cache = (alice_key, some (alice_bytes, none)) ∷ [];
  fetches = 1;
  fetch_mode = FetchMode.strict;
}

first_read :
    get sample_codec sample_client empty_source alice_key
    ≡ ok (some (alice_entry, none), read_source)
unfolding sample_codec get lookup insert key_eq ℕ_discrete
first_read = refl

get-GetSpec_example :
    GetSpec sample_codec sample_client empty_source alice_key (some (alice_entry, none)) read_source
get-GetSpec_example =
    get-GetSpec sample_codec sample_client empty_source alice_key sample_codec-IsCodec first_read

-- Alice's account is removed, Bob's is read, and Bob's is written.
abbrev removal : LedgerEntryChange
removal = record {
  read_only = false;
  encoded_key = alice;
  encoded_new_value = none;
  ttl_change = none;
}

abbrev bob_read : LedgerEntryChange
bob_read = record {
  read_only = true;
  encoded_key = bob;
  encoded_new_value = some (5 ∷ []);
  ttl_change = none;
}

abbrev bob_write : LedgerEntryChange
bob_write = record {
  read_only = false;
  encoded_key = bob;
  encoded_new_value = some (0 ∷ 9 ∷ 3 ∷ 1 ∷ 0 ∷ 0 ∷ bob);
  ttl_change = some 20;
}

abbrev changes : List LedgerEntryChange
changes = removal ∷ bob_read ∷ bob_write ∷ []

abbrev changed_source : Source
changed_source = record {
  cache = (alice_key, none) ∷ (bob_key, some (0 ∷ 9 ∷ 3 ∷ 1 ∷ 0 ∷ 0 ∷ bob, some 20)) ∷ [];
  fetches = 1;
  fetch_mode = FetchMode.strict;
}

changes_applied : apply_changes sample_codec read_source changes ≡ ok (changed_source, 2)
unfolding sample_codec apply_changes lookup insert key_eq ℕ_discrete
changes_applied = refl

apply_changes_lem_example :
    ((j : LedgerKey)
      → lookup j changed_source.cache
        ≡ or_before sample_codec (last_write sample_codec j changes) (lookup j read_source.cache))
    × (2 ≡ min (writes sample_codec changes) u32_max)
    × (changed_source.fetches ≡ read_source.fetches)
apply_changes_lem_example = apply_changes_lem sample_codec read_source changes changes_applied

keys_decode : All (HasKey sample_codec) changes
unfolding sample_codec
keys_decode = (λ _. (alice_key, refl), (λ _. (bob_key, refl), (λ _. (bob_key, refl), tt)))

abbrev rich_entry : LedgerEntry
rich_entry = plain_account 10 5000 8 0 0 alice

abbrev rich_source : Source
rich_source = record {
  cache = (alice_key, some (0 ∷ 10 ∷ 5000 ∷ 8 ∷ 0 ∷ 0 ∷ alice, some 30)) ∷ [];
  fetches = 1;
  fetch_mode = FetchMode.strict;
}

rich_set : set_entry sample_codec read_source alice_key rich_entry (some 30) ≡ ok rich_source
unfolding sample_codec set_entry insert key_eq ℕ_discrete
rich_set = refl

abbrev alice_account : AccountEntry
alice_account = record {
  account_id = alice;
  balance = pos 100;
  seq_num = pos 7;
  num_sub_entries = 0;
  inflation_dest = none;
  flags = 0;
  home_domain = [];
  thresholds = [];
  signers = [];
}

changed_source-Reachable : Reachable sample_codec changed_source
unfolding new
changed_source-Reachable =
    next (next start (Step.read sample_client alice_key (some (alice_entry, none)) first_read))
      (Step.changed changes 2 changes_applied)

abbrev bob_entry : LedgerEntry
bob_entry = plain_account 9 3 1 0 0 bob

exports : entries sample_codec changed_source ≡ ok ((bob_key, (bob_entry, some 20)) ∷ [])
unfolding sample_codec entries
exports = refl

lookup-entries_example :
    lookup bob_key ((bob_key, (bob_entry, some 20)) ∷ [])
    ≡ exported sample_codec (view sample_codec changed_source bob_key)
lookup-entries_example =
    lookup-entries sample_codec changed_source bob_key changed_source-Reachable exports

get-set_entry_example :
    (get sample_codec sample_client rich_source alice_key
      ≡ ok (some (rich_entry, some 30), rich_source))
    × (rich_source.fetches ≡ read_source.fetches)
    × ((j : LedgerKey) → alice_key ≢ j → lookup j rich_source.cache ≡ lookup j read_source.cache)
get-set_entry_example =
    get-set_entry sample_codec sample_client read_source alice_key rich_entry (some 30)
      sample_codec-IsCodec rich_set
