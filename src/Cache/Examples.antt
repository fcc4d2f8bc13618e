-- ===== src/Cache/Examples.antt =====
-- A save over an old snapshot, which is written in two pieces.
use soroban_fork.Prelude.{true, none, some, [], ◌∷◌, codes, All}
use soroban_fork.Cache.{FilePath, Files, read_at, Disk, save_snapshot}
use soroban_fork.Cache.Atomic.{IsWhole, Settles, save_snapshot-IsWhole}

abbrev disk : Disk
disk = record {
  to_text = λ snapshot. codes "new";
  of_text = λ text. none;
  writing = λ files text. ((codes "n") ∷ (codes "ne") ∷ [], true);
  renaming = λ files. true;
  pid = 7;
  nanos = 9;
}

abbrev path : FilePath
path = record { parent = none; file_name = some (codes "cache.json") }

abbrev before : Files
before = (path, some (codes "old")) ∷ []

save_snapshot-IsWhole_example :
    All
      (IsWhole path (read_at path before) (codes "new"))
      (save_snapshot disk path [] 1000 5 [] 25 before).visited
    × Settles path
        (read_at path before)
        (codes "new")
        (save_snapshot disk path [] 1000 5 [] 25 before).result
        (save_snapshot disk path [] 1000 5 [] 25 before).files
save_snapshot-IsWhole_example = save_snapshot-IsWhole disk path [] 1000 5 [] 25 before
