-- ===== src/Source/Seq.antt =====
-- `bump_account_seq` on a cached account, and on one that is not cached.
use soroban_fork.Prelude.{ℕ, ◌≡◌, Option, none, some, arith, ◌⊎◌}
use soroban_fork.Prelude.Int.{ℤ}
use soroban_fork.Prelude.Word.{wrapping_suc_i64}
use soroban_fork.Prelude.Assoc.{insert}
use soroban_fork.Xdr.{Bytes}
use soroban_fork.Ledger.{LedgerKey, LedgerEntry, LedgerEntryData, AccountEntry, ledger_key_eq}
use soroban_fork.Source.{Source, Codec, IsCodec, bump_account_seq}
use soroban_fork.Source.View.{unknown, absent, known, view}

abbrev pub account_entry : ℕ → AccountEntry → LedgerEntry
account_entry modified a = record {
  last_modified_ledger_seq = modified;
  body = LedgerEntryData.account a;
}

abbrev pub with_seq : AccountEntry → ℤ → AccountEntry
with_seq a n = record a { seq_num = n }

module _ (codec : Codec) (s : Source) (id : Bytes) where
  abbrev key : LedgerKey
  key = LedgerKey.account id

  module _ (modified : ℕ) (a : AccountEntry) (live_until : Option ℕ) (b' : Bytes)
      (laws : IsCodec codec)
      (encoded : codec.encode (account_entry modified (with_seq a (wrapping_suc_i64 a.seq_num)))
        ≡ some b') where
    bumped : Source
    bumped = record s { cache = insert key (some (b', live_until)) s.cache }

  -- Whatever is known of the account, `None` means that the source is as it was.
  pub bump_account_seq-none :
      (bump_account_seq codec s id).1 ≡ none → (bump_account_seq codec s id).0 ≡ s
  unfolding bump_account_seq
  bump_account_seq-none h = ground arith

  -- An account that is not cached, or is cached as absent, is not bumped.
  pub bump_account_seq-uncached :
      (view codec s (LedgerKey.account id) ≡ unknown)
        ⊎ (view codec s (LedgerKey.account id) ≡ absent)
      → bump_account_seq codec s id ≡ (s, none)
  unfolding bump_account_seq known
  bump_account_seq-uncached h = ground arith
