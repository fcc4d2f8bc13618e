-- ===== src/Server.antt =====
-- src/server/mod.rs, and `spawn` of src/server/actor.rs: the start of the server, and its end.
pub mod Started
pub mod Lifecycle
mod Examples
use soroban_fork.Prelude.{Bool, true, false, Option, none, some, List, [], ◌∷◌, codes}
use soroban_fork.Prelude.Outcome.{Outcome, ok, panic}
use soroban_fork.Xdr.{Bytes}
use soroban_fork.Source.{Codec}
use soroban_fork.Errors.{ForkError, Try, done, failed}
use soroban_fork.Rpc.{Http, Net}
use soroban_fork.Rpc.Fetch.{Codecs}
use soroban_fork.Accounts.{Keys}
use soroban_fork.Cache.{FilePath, Files, Disk}
use soroban_fork.Build.{ForkConfig, Platform, Built, build}
use soroban_fork.Actor.{Worker}

pub data ServeError : Type 0 where
  fork : ForkError → ServeError
  io : ServeError
  worker_aborted : ServeError

-- An address, by its text.
pub record ServerBuilder : Type 0 where
  pub config : ForkConfig
  pub listen_address : Option Bytes

unfoldable pub builder : ForkConfig → ServerBuilder
builder config = record { config = config; listen_address = none }

unfoldable pub listen : ServerBuilder → Bytes → ServerBuilder
listen b address = record b { listen_address = some address }

abbrev pub default_address : Bytes
default_address = codes "127.0.0.1:8000"

unfoldable pub listen_or_default : Option Bytes → Bytes
listen_or_default none = default_address
listen_or_default (some address) = address

-- What `ready.await` gives: the message of the worker thread, or none when the thread panicked before it sent one.
abbrev pub Ready : Type 0
Ready = Option (Try (Unit {0}))

-- The worker thread once it has its environment, with the path that the environment is saved to when it is dropped.
pub record Thread : Type 0 where
  pub worker : Worker
  pub cache_path : Option FilePath

-- The handle: the address, whether it holds `shutdown_tx`, and the thread that it started.
pub record RunningServer : Type 0 where
  pub local_addr : Bytes
  pub shutdown_tx : Bool
  pub thread : Thread

pub data StartResult : Type 0 where
  started : RunningServer → StartResult
  refused : ServeError → StartResult

-- How the task that serves ends.
pub data TaskEnd : Type 0 where
  served io_error join_error : TaskEnd

pub data Stopped : Type 0 where
  stopped : Stopped
  stop_failed : ServeError → Stopped

unfoldable pub start_thread : Built → Thread
start_thread built = record {
  worker = record { env = built.env; receipts = [] };
  cache_path = built.cache_path;
}

-- The closure of `spawn`: the environment is built on the thread, which reports and goes on to its loop, or ends.
unfoldable pub on_built : Outcome (Try Built × Net) → Ready × Option Thread
on_built panic = (none, none)
on_built (ok (failed e, net)) = (some (failed e), none)
on_built (ok (done built, net)) = (some (done tt), some (start_thread built))

unfoldable pub bound : Option Bytes → Thread → StartResult
bound none thread = refused ServeError.io
bound (some local_addr) thread =
    started (record { local_addr = local_addr; shutdown_tx = true; thread = thread })

-- From `ready.await` on. `bind` gives the address that the listener got.
unfoldable pub on_ready : (Bytes → Option Bytes) → Bytes → Ready × Option Thread → StartResult
on_ready bind address (none, thread) = refused ServeError.worker_aborted
on_ready bind address (some (failed e), thread) = refused (ServeError.fork e)
on_ready bind address (some (done _), none) = refused ServeError.worker_aborted
on_ready bind address (some (done _), some thread) = bound (bind address) thread

unfoldable pub stop_result : TaskEnd → Stopped
stop_result served = stopped
stop_result io_error = stop_failed ServeError.io
stop_result join_error = stop_failed ServeError.io

-- `shutdown`, and the end of `run_until_signal`: the channel's sender is used up, and the task's end is awaited.
unfoldable pub shutdown : TaskEnd → RunningServer → RunningServer × Stopped
unfolding stop_result
shutdown task r = (record r { shutdown_tx = false }, stop_result task)

module _ (codec : Codec) (disk : Disk) (codecs : Codecs) (keys : Keys) (http : Http)
    (platform : Platform) where
  unfoldable pub spawn : ForkConfig → Files → Net → Ready × Option Thread
  spawn config files net = on_built (build codec disk codecs keys http platform config files net)

  unfoldable pub start : (Bytes → Option Bytes) → ServerBuilder → Files → Net → StartResult
  start bind b files net =
      on_ready bind (listen_or_default b.listen_address) (spawn b.config files net)

  -- `start`, then the wait for a signal and the end.
  unfoldable pub serve : (Bytes → Option Bytes) → TaskEnd → ServerBuilder → Files → Net → Stopped
  unfolding stop_result
  serve bind task b files net = elim (start bind b files net) [
    | started r ↦ (shutdown task r).1
    | refused e ↦ stop_failed e
  ]
