-- ===== src/Cache/Dropped.antt =====
-- The end of an environment, against `save_cache`.
use soroban_fork.Prelude.{ℕ, ◌≡◌, refl, Option, none, some, length}
use soroban_fork.Prelude.Outcome.{ok, >>=-eq-ok, >>=->>=-eq-ok}
use soroban_fork.Source.{Codec, entries}
use soroban_fork.Env.{ForkedEnv}
use soroban_fork.Errors.{Try, done, failed}
use soroban_fork.Cache.{
  FilePath, Files, Disk, Saved, unchanged, save_entries, do_save_cache, save_cache, logged_count,
  drop_env,
}

module _ (codec : Codec) (disk : Disk) where
  -- An environment that has been dropped has left the files that one `save_cache` leaves.
  pub drop_env-save_cache :
      (path : Option FilePath) (env : ForkedEnv) (before after : Files)
      → drop_env codec disk path env before ≡ ok after
      → (saved : Saved) × (save_cache codec disk path env before ≡ ok saved) × (after ≡ saved.files)
  unfolding drop_env save_cache unchanged
  drop_env-save_cache none env before after h = (unchanged before, refl, cc)
  drop_env-save_cache (some path) env before after h =
      let (saved, count, one, counted, same) =
        >>=->>=-eq-ok (do_save_cache codec disk path env before)
          (λ saved. logged_count codec env saved.result) (λ saved count. saved.files) h in
      (saved, one, same)

  log_counts :
      (env : ForkedEnv) (path : FilePath) (before : Files) {saved : Saved}
      → do_save_cache codec disk path env before ≡ ok saved
      → (result : Try (Unit {0})) → (count : Option ℕ) × (logged_count codec env result ≡ ok count)
  unfolding logged_count do_save_cache
  log_counts env path before one (failed e) = (none, refl)
  log_counts env path before one (done _) =
      let (es, read, made) =
        >>=-eq-ok (entries codec env.source) (λ es. ok (save_entries disk path env before es))
          one in
      (some (length es), rw read)

  -- The count for the log does not panic after a save, which has read the same entries.
  pub save_cache-drop_env :
      (path : Option FilePath) (env : ForkedEnv) (before : Files) (saved : Saved)
      → save_cache codec disk path env before ≡ ok saved
      → drop_env codec disk path env before ≡ ok saved.files
  unfolding drop_env save_cache unchanged
  save_cache-drop_env none env before saved h = cc
  save_cache-drop_env (some path) env before saved h =
      let one : do_save_cache codec disk path env before ≡ ok saved = h in
      let (count, counted) = log_counts env path before one saved.result in rw (one, counted)
