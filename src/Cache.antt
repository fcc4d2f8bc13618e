-- ===== src/Cache.antt =====
-- src/cache.rs: the snapshot file that a fork loads its cache from and saves it to.
pub mod Atomic
pub mod Dropped
mod Examples
use soroban_fork.Prelude.{
  ℕ, ℕ_discrete, ◌↔◌, ◌≡◌, Bool, true, false, Option, none, some, List, [], ◌∷◌, ◌++◌, map, codes,
  if◌then◌else◌, length,
}
use soroban_fork.Prelude.Assoc.{Eq, decided, decided_iff, lookup, insert}
use soroban_fork.Xdr.{Bytes}
use soroban_fork.Ledger.{LedgerKey, LedgerEntry}
use soroban_fork.Prelude.Outcome.{Outcome, ok, ◌>>=◌}
use soroban_fork.Source.{Codec, EntryWithLiveUntil, entries}
use soroban_fork.Env.{ForkedEnv}
use soroban_fork.Errors.{ForkError, Try, done, failed}
use soroban_fork.Prelude.Decimal.{decimal}

-- A path, by its parent and its file's name; a name that is not UTF-8 is none.
pub record FilePath : Type 0 where
  pub parent : Option Bytes
  pub file_name : Option Bytes

FilePath-discrete : Discrete FilePath
FilePath-discrete = hlevel ℕ_discrete

unfoldable pub path_eq : FilePath → FilePath → Bool
unfolding FilePath-discrete
path_eq a b = decided (FilePath-discrete a b)

pub path_eq_iff : (a b : FilePath) → (path_eq a b ≡ true) ↔ (a ≡ b)
unfolding path_eq
path_eq_iff a b = decided_iff (FilePath-discrete a b)

instance abbrev pub file_path_eq : Eq FilePath
file_path_eq = record { beq = path_eq; beq_iff = path_eq_iff }

-- The files by their paths; none for a path that has been removed.
abbrev pub Files : Type 0
Files = List (FilePath × Option Bytes)

abbrev pub content_of : Option (Option Bytes) → Option Bytes
content_of none = none
content_of (some content) = content

unfoldable pub read_at : FilePath → Files → Option Bytes
read_at path files = content_of (lookup path files)

pub record LedgerSnapshot : Type 0 where
  pub protocol_version : ℕ
  pub sequence_number : ℕ
  pub timestamp : ℕ
  pub network_id : Bytes
  pub base_reserve : ℕ
  pub min_persistent_entry_ttl : ℕ
  pub min_temp_entry_ttl : ℕ
  pub max_entry_ttl : ℕ
  pub ledger_entries : List (LedgerKey × EntryWithLiveUntil)

-- The snapshot library and the system: the text of a snapshot and back, the contents that a file passes through while
-- a text is written to it and whether that succeeds, whether a rename succeeds, the process and the clock.
pub record Disk : Type 0 where
  pub to_text : LedgerSnapshot → Bytes
  pub of_text : Bytes → Option LedgerSnapshot
  pub writing : Files → Bytes → List Bytes × Bool
  pub renaming : Files → Bool
  pub pid : ℕ
  pub nanos : ℕ

-- A save: its result, the states of the files on the way, and the last one.
pub record Saved : Type 0 where
  pub result : Try (Unit {0})
  pub visited : List Files
  pub files : Files

unfoldable pub file_name_or_snapshot : Option Bytes → Bytes
file_name_or_snapshot none = codes "snapshot"
file_name_or_snapshot (some name) = name

unfoldable pub snapshot_of :
    List (LedgerKey × EntryWithLiveUntil) → ℕ → ℕ → Bytes → ℕ → LedgerSnapshot
snapshot_of entries sequence timestamp network_id protocol_version = record {
  protocol_version = protocol_version;
  sequence_number = sequence;
  timestamp = timestamp;
  network_id = network_id;
  base_reserve = 100;
  min_persistent_entry_ttl = 4096;
  min_temp_entry_ttl = 16;
  max_entry_ttl = 6312000;
  ledger_entries = entries;
}

-- The states with the contents at the path.
unfoldable pub passing : FilePath → Files → List Bytes → List Files
passing path files [] = []
passing path files (content ∷ rest) = insert path (some content) files ∷ passing path files rest

unfoldable pub last_of : Files → List Files → Files
last_of files [] = files
last_of files (f ∷ visited) = last_of f visited

module _ (disk : Disk) where
  unfoldable pub load_snapshot : FilePath → Files → Try (List (LedgerKey × EntryWithLiveUntil))
  load_snapshot path files = elim (read_at path files) [
    | none ↦ failed (ForkError.cache (file_name_or_snapshot path.file_name))
    | some text ↦ elim (disk.of_text text) [
      | none ↦ failed (ForkError.cache (file_name_or_snapshot path.file_name))
      | some snapshot ↦ done snapshot.ledger_entries
    ]
  ]

  unfoldable pub tmp_suffix : Bytes
  tmp_suffix = codes ".tmp." ++ decimal 20 disk.pid ++ codes "." ++ decimal 20 disk.nanos

  unfoldable pub tmp_sibling : FilePath → FilePath
  tmp_sibling path = record {
    parent = path.parent;
    file_name = some (codes "." ++ (file_name_or_snapshot path.file_name ++ tmp_suffix));
  }

  -- The rename moves the file, or leaves all as it is; then the temporary file is removed.
  unfoldable pub rename_tmp : FilePath → FilePath → Bytes → Files → List Files → Saved
  rename_tmp tmp path text files visited =
      if disk.renaming files
      then record {
        result = done tt;
        visited = visited;
        files = insert tmp none (insert path (some text) files);
      }
      else record {
        result = failed (ForkError.cache (file_name_or_snapshot path.file_name));
        visited = visited ++ (files ∷ []);
        files = insert tmp none files;
      }

  unfoldable pub save_text : FilePath → Bytes → Files → Saved
  save_text path text files =
      let tmp = tmp_sibling path in
      let (contents, written) = disk.writing files text in
      let visited = passing tmp files contents in
      if written
      then rename_tmp tmp path text (insert tmp (some text) files)
          (visited ++ (insert tmp (some text) files ∷ []))
      else record {
        result = failed (ForkError.cache (file_name_or_snapshot tmp.file_name));
        visited = visited;
        files = last_of files visited;
      }

  unfoldable pub save_snapshot :
      FilePath → List (LedgerKey × EntryWithLiveUntil) → ℕ → ℕ → Bytes → ℕ → Files → Saved
  save_snapshot path entries sequence timestamp network_id protocol_version files =
      save_text path
        (disk.to_text (snapshot_of entries sequence timestamp network_id protocol_version)) files

-- src/lib.rs: do_save_cache, which does nothing for a source without entries, and save_cache, which does nothing
-- without a path.
unfoldable pub unchanged : Files → Saved
unchanged files = record { result = done tt; visited = []; files = files }

unfoldable pub save_entries :
    Disk → FilePath → ForkedEnv → Files → List (LedgerKey × EntryWithLiveUntil) → Saved
save_entries disk path env files [] = unchanged files
save_entries disk path env files (e ∷ es) =
    save_snapshot disk path (e ∷ es) env.fork_sequence env.fork_timestamp env.network_id
      env.protocol_version files

unfoldable pub do_save_cache : Codec → Disk → FilePath → ForkedEnv → Files → Outcome Saved
do_save_cache codec disk path env files = do
  es ← entries codec env.source
  ok (save_entries disk path env files es)

unfoldable pub save_cache : Codec → Disk → Option FilePath → ForkedEnv → Files → Outcome Saved
save_cache codec disk none env files = ok (unchanged files)
save_cache codec disk (some path) env files = do_save_cache codec disk path env files

-- src/lib.rs: the end of a `ForkedEnv`. The log counts the entries after a save that has succeeded, and a save that
-- has failed is only logged.
unfoldable pub logged_count : Codec → ForkedEnv → Try (Unit {0}) → Outcome (Option ℕ)
logged_count codec env (failed e) = ok none
logged_count codec env (done _) = do es ← entries codec env.source; ok (some (length es))

unfoldable pub drop_env : Codec → Disk → Option FilePath → ForkedEnv → Files → Outcome Files
drop_env codec disk none env files = ok files
drop_env codec disk (some path) env files = do
  saved ← do_save_cache codec disk path env files
  _ ← logged_count codec env saved.result
  ok saved.files
