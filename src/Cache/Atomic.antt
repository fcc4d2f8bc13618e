-- ===== src/Cache/Atomic.antt =====
-- save_snapshot leaves the file at its path whole at every moment.
use soroban_fork.Prelude.{
  ℕ, ◌≡◌, ◌≢◌, ◌⊎◌, inl, inr, refl, ap, ◌∙◌, Bool-cases, Option, none, some, List, [], ◌∷◌, ◌++◌,
  All, arith, length, length-append, codes,
}
use soroban_fork.Prelude.Assoc.{lookup, insert, lookup-insert, lookup-insert_self}
use soroban_fork.Xdr.{Bytes}
use soroban_fork.Ledger.{LedgerKey}
use soroban_fork.Source.{EntryWithLiveUntil}
use soroban_fork.Errors.{Try, done, failed}
use soroban_fork.Cache.{
  FilePath, path_eq_iff, file_path_eq, Files, read_at, content_of, Disk, file_name_or_snapshot,
  snapshot_of, passing, last_of, tmp_suffix, tmp_sibling, rename_tmp, save_text, save_snapshot,
}

read_at-other :
    (tmp path : FilePath) (content : Option Bytes) (files : Files)
    → tmp ≢ path
    → read_at path (insert tmp content files) ≡ read_at path files
unfolding read_at
read_at-other tmp path content files ne =
    let same : lookup path (insert tmp content files) ≡ lookup path files =
      ground (arith, lookup-insert tmp path content files, path_eq_iff tmp path) in
    ap content_of same

read_at_self :
    (path : FilePath) (content : Option Bytes) (files : Files)
    → read_at path (insert path content files) ≡ content
unfolding read_at
read_at_self path content files = ap content_of (lookup-insert_self path content files)

longer : (name rest : Bytes) → (codes "." ++ (name ++ rest)) ≢ name
longer name rest h = ground (arith, ap length h, length-append name rest)

other_name :
    (name : Option Bytes) (rest : Bytes)
    → some (codes "." ++ (file_name_or_snapshot name ++ rest)) ≢ name
unfolding file_name_or_snapshot
other_name none rest h = cc h
other_name (some name) rest h = longer name rest (cc h)

tmp_sibling-other : (disk : Disk) (path : FilePath) → tmp_sibling disk path ≢ path
unfolding tmp_sibling
tmp_sibling-other disk path h =
    other_name path.file_name (tmp_suffix disk) (ap (λ p. p.file_name) h)

-- The file at the path is as it was before, or it is the new text.
abbrev pub IsWhole : FilePath → Option Bytes → Bytes → Files → Type 0
IsWhole path before text files = (read_at path files ≡ before) ⊎ (read_at path files ≡ some text)

-- What a save has come to: by its result the file is the new text, or it is as it was.
abbrev pub Settles : FilePath → Option Bytes → Bytes → Try (Unit {0}) → Files → Type 0
Settles path before text (done u) files = read_at path files ≡ some text
Settles path before text (failed e) files = read_at path files ≡ before

module _ (disk : Disk) (path : FilePath) (text : Bytes) where
  passing-IsWhole :
      (tmp : FilePath) (contents : List Bytes) (files : Files)
      → tmp ≢ path
      → All (IsWhole path (read_at path files) text) (passing tmp files contents)
  unfolding passing
  passing-IsWhole tmp [] files ne = tt
  passing-IsWhole tmp (content ∷ rest) files ne =
      (inl (read_at-other tmp path (some content) files ne), passing-IsWhole tmp rest files ne)

  All-snoc :
      (before : Option Bytes) (visited : List Files) (files : Files)
      → All (IsWhole path before text) visited
      → IsWhole path before text files
      → All (IsWhole path before text) (visited ++ (files ∷ []))
  All-snoc before [] files a h = (h, tt)
  All-snoc before (f ∷ visited) files (h', a) h = (h', All-snoc before visited files a h)

  last_of-passing :
      (tmp : FilePath) (contents : List Bytes) (start files : Files)
      → tmp ≢ path
      → read_at path start ≡ read_at path files
      → read_at path (last_of start (passing tmp files contents)) ≡ read_at path files
  unfolding last_of passing
  last_of-passing tmp [] start files ne h = h
  last_of-passing tmp (content ∷ rest) start files ne h =
      last_of-passing tmp rest (insert tmp (some content) files) files ne
        (read_at-other tmp path (some content) files ne)

  save_text-IsWhole :
      (files : Files)
      → let saved = save_text disk path text files in
        All (IsWhole path (read_at path files) text) saved.visited
        × Settles path (read_at path files) text saved.result saved.files
  unfolding save_text rename_tmp
  save_text-IsWhole files =
      let tmp = tmp_sibling disk path in
      let ne = tmp_sibling-other disk path in
      let contents = (disk.writing files text).0 in
      let visited = passing-IsWhole tmp contents files ne in
      let written = insert tmp (some text) files in
      let kept = read_at-other tmp path (some text) files ne in
      elim (Bool-cases (disk.writing files text).1) [
        | inr e ↦ rw e (visited, last_of-passing tmp contents files files ne refl)
        | inl e ↦
            let more =
              All-snoc (read_at path files) (passing tmp files contents) written visited
                (inl kept) in
            elim (Bool-cases (disk.renaming written)) [
              | inl r ↦
                  rw (e, r)
                    (
                      more,
                      read_at-other tmp path none (insert path (some text) written) ne
                          ∙ read_at_self path (some text) written,
                    )
              | inr r ↦
                  rw (e, r)
                    (
                      All-snoc (read_at path files) (passing tmp files contents ++ (written ∷ []))
                          written more (inl kept),
                      read_at-other tmp path none written ne ∙ kept,
                    )
            ]
      ]

-- At every moment of a save, and so whenever it is interrupted, the file at the path is as it was before or holds
-- the whole text of the new snapshot, whatever the temporary file holds; a save that reports success has left the
-- new text there, and one that reports a failure the file as it was.
pub save_snapshot-IsWhole :
    (disk : Disk) (path : FilePath) (entries : List (LedgerKey × EntryWithLiveUntil))
    (sequence timestamp : ℕ) (network_id : Bytes) (protocol_version : ℕ) (files : Files)
    → let text =
        disk.to_text (snapshot_of entries sequence timestamp network_id protocol_version) in
      let saved =
        save_snapshot disk path entries sequence timestamp network_id protocol_version files in
      All (IsWhole path (read_at path files) text) saved.visited
      × Settles path (read_at path files) text saved.result saved.files
unfolding save_snapshot
save_snapshot-IsWhole disk path entries sequence timestamp network_id protocol_version files =
    save_text-IsWhole disk path
      (disk.to_text (snapshot_of entries sequence timestamp network_id protocol_version)) files
