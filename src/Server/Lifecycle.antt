-- ===== src/Server/Lifecycle.antt =====
-- The life of a started server: what its clients, its owner, its worker thread and the process do, in any order.
use soroban_fork.Prelude.{ℕ, Bool, true, false, ◌≡◌, ◌⊎◌}
use soroban_fork.Prelude.Outcome.{ok, panic}
use soroban_fork.Cache.{Files, Disk, Saved, save_cache, drop_env}
use soroban_fork.Source.{Source}
use soroban_fork.Env.{ForkedEnv}
use soroban_fork.Actor.{Worker, step}
use soroban_fork.Actor.Host.{World}
use soroban_fork.Actor.Messages.{Command, Reply}
use soroban_fork.Server.{RunningServer, Thread}

-- The worker thread: it takes commands, or it has ended.
pub data Life : Type 0 where
  working : Thread → Life
  ended : Life

-- `open_handle`: the owner's handle has its `shutdown_tx`. `serving`: the task accepts requests, and holds the queue of commands.
-- `exited`: the process is gone.
pub record State : Type 0 where
  pub open_handle : Bool
  pub serving : Bool
  pub life : Life
  pub files : Files
  pub exited : Bool

unfoldable pub after_start : RunningServer → Files → State
after_start r files = record {
  open_handle = r.shutdown_tx;
  serving = true;
  life = working r.thread;
  files = files;
  exited = false;
}

module _ (w : World) (disk : Disk) where
  pub data Step : State → State → Type 0 where
    -- A command is run while requests are served.
    command :
        {s : State} {t : Thread} {u : Worker} (now : ℕ) (c : Command) (reply : Reply)
        → s.exited ≡ false
        → s.serving ≡ true
        → s.life ≡ working t
        → step w now t.worker c ≡ ok (reply, u)
        → Step s (record s { life = working (record t { worker = u }) })
    -- `shutdown`, or the drop of the handle: the sender is used or dropped, and the receiver is told.
    close_handle : {s : State} → s.exited ≡ false → Step s (record s { open_handle = false })
    -- The task ends once the handle is closed, and the queue with it.
    end_task :
        {s : State}
        → s.exited ≡ false
        → s.open_handle ≡ false
        → Step s (record s { serving = false })
    -- The worker's loop ends with the queue, and the environment is dropped.
    end_worker :
        {s : State} {t : Thread} {files : Files}
        → s.exited ≡ false
        → s.serving ≡ false
        → s.life ≡ working t
        → drop_env w.codec disk t.cache_path t.worker.env s.files ≡ ok files
        → Step s (record s { life = ended; files = files })
    -- The drop itself may panic, in the count of the entries: the thread ends without a save.
    end_unsaved :
        {s : State} {t : Thread}
        → s.exited ≡ false
        → s.serving ≡ false
        → s.life ≡ working t
        → drop_env w.codec disk t.cache_path t.worker.env s.files ≡ panic
        → Step s (record s { life = ended })
    -- A command that panics unwinds the worker, which drops the environment as the command has left it, while
    -- requests are still served. What it has left of the source is not told by `step`: it may be any source.
    unwind :
        {s : State} {t : Thread} {files : Files} (now : ℕ) (c : Command) (left : Source)
        → s.exited ≡ false
        → s.serving ≡ true
        → s.life ≡ working t
        → step w now t.worker c ≡ panic
        → drop_env w.codec disk t.cache_path (record t.worker.env { source = left }) s.files
          ≡ ok files
        → Step s (record s { life = ended; files = files })
    -- A drop that panics during the unwinding, for an entry that does not decode or a lock that the command has
    -- poisoned, aborts the process.
    abort :
        {s : State} {t : Thread} (now : ℕ) (c : Command)
        → s.exited ≡ false
        → s.serving ≡ true
        → s.life ≡ working t
        → step w now t.worker c ≡ panic
        → Step s (record s { life = ended; exited = true })
    -- `main` returns when the task has ended.
    exit : {s : State} → s.exited ≡ false → s.serving ≡ false → Step s (record s { exited = true })

  pub data Reach (s : State) : State → Type 0 where
    here : Reach s s
    next : {t u : State} → Reach s t → Step t u → Reach s u

  -- The thread after some commands.
  pub data Served (first : Thread) : Thread → Type 0 where
    none_yet : Served first first
    one_more :
        {t : Thread} {u : Worker} (now : ℕ) (c : Command) (reply : Reply)
        → Served first t
        → step w now t.worker c ≡ ok (reply, u)
        → Served first (record t { worker = u })

  -- The environment that a thread drops: its own, or what a panicking command has left of it.
  pub data Dropped (t : Thread) : ForkedEnv → Type 0 where
    intact : Dropped t t.worker.env
    cut_short :
        (now : ℕ) (c : Command) (left : Source)
        → step w now t.worker c ≡ panic
        → Dropped t (record t.worker.env { source = left })

  -- A command of the thread has panicked, and the process is gone.
  abbrev Aborted : Thread → State → Type 0
  Aborted t s = (s.exited ≡ true) × (now : ℕ) × (c : Command) × (step w now t.worker c ≡ panic)

  -- What the files are: those at the start while the worker is at work on the commands that it was sent, and once it
  -- has ended what one save of its environment, after such commands, has made of them, or those at the start
  -- again when the drop of its environment panicked.
  pub data FilesOf (first : Thread) (files : Files) : State → Type 0 where
    unsaved :
        {s : State} {t : Thread}
        → s.life ≡ working t
        → Served first t
        → s.files ≡ files
        → FilesOf first files s
    saved_once :
        {s : State} {saved : Saved} {env : ForkedEnv} (t : Thread)
        → s.life ≡ ended
        → Served first t
        → Dropped t env
        → save_cache w.codec disk first.cache_path env files ≡ ok saved
        → s.files ≡ saved.files
        → FilesOf first files s
    lost :
        {s : State} (t : Thread)
        → s.life ≡ ended
        → Served first t
        → (drop_env w.codec disk first.cache_path t.worker.env files ≡ panic) ⊎ Aborted t s
        → s.files ≡ files
        → FilesOf first files s
