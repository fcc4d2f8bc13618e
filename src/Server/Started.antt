-- ===== src/Server/Started.antt =====
-- When the server starts.
use soroban_fork.Prelude.{
  ◌≡◌, refl, true, [], codes, Option, none, some, Option-cases, inl, inr, sym, ap, ◌∙◌, ◌↔◌,
}
use soroban_fork.Prelude.Outcome.{Outcome, ok, panic}
use soroban_fork.Xdr.{Bytes}
use soroban_fork.Source.{Codec}
use soroban_fork.Errors.{Try, done, failed}
use soroban_fork.Rpc.{Http, Net}
use soroban_fork.Rpc.Fetch.{Codecs}
use soroban_fork.Accounts.{Keys}
use soroban_fork.Cache.{Files, Disk}
use soroban_fork.Build.{Platform, Built, build}
use soroban_fork.Server.{
  ServeError, ServerBuilder, RunningServer, StartResult, started, refused, start_thread, on_built,
  bound, on_ready, spawn, start, listen_or_default,
}

-- What a start makes of the outcome of the build and of the listener's address.
unfoldable pub expected : Outcome (Try Built × Net) → Option Bytes → StartResult
expected panic address = refused ServeError.worker_aborted
expected (ok (failed e, net)) address = refused (ServeError.fork e)
expected (ok (done built, net)) none = refused ServeError.io
expected (ok (done built, net)) (some local_addr) = started (record {
  local_addr = local_addr;
  shutdown_tx = true;
  thread = record {
    worker = record { env = built.env; receipts = [] };
    cache_path = built.cache_path;
  };
})

on_ready-on_built :
    (bind : Bytes → Option Bytes) (address : Bytes) (o : Outcome (Try Built × Net))
    → on_ready bind address (on_built o) ≡ expected o (bind address)
unfolding on_ready on_built expected bound start_thread
on_ready-on_built bind address panic = refl
on_ready-on_built bind address (ok (failed e, net)) = refl
on_ready-on_built bind address (ok (done built, net)) = elim (Option-cases (bind address)) [
  | inl e ↦ rw e refl
  | inr (a, e) ↦ rw e refl
]

-- The handle of a server whose environment was built.
unfoldable pub handle_of : Built → Bytes → RunningServer
handle_of built local_addr = record {
  local_addr = local_addr;
  shutdown_tx = true;
  thread = record {
    worker = record { env = built.env; receipts = [] };
    cache_path = built.cache_path;
  };
}

-- The address that a server is asked to listen on.
unfoldable pub asked_address : Option Bytes → Bytes
asked_address none = codes "127.0.0.1:8000"
asked_address (some address) = address

listen_or_default-asked_address :
    (address : Option Bytes) → listen_or_default address ≡ asked_address address
unfolding listen_or_default asked_address
listen_or_default-asked_address none = refl
listen_or_default-asked_address (some address) = refl

expected-started :
    (o : Outcome (Try Built × Net)) (address : Option Bytes) {r : RunningServer}
    → expected o address ≡ started r
    → (built : Built) × (after : Net) × (local_addr : Bytes) × (o ≡ ok (done built, after))
      × (address ≡ some local_addr)
      × (r ≡ handle_of built local_addr)
unfolding expected handle_of
expected-started panic address h = cc h
expected-started (ok (failed e, net)) address h = cc h
expected-started (ok (done built, net)) none h = cc h
expected-started (ok (done built, net)) (some a) h = (built, net, a, refl, refl, cc h)

started-expected :
    {o : Outcome (Try Built × Net)} {address : Option Bytes} {r : RunningServer} {built : Built}
    {after : Net} {local_addr : Bytes}
    → o ≡ ok (done built, after)
    → address ≡ some local_addr
    → r ≡ handle_of built local_addr
    → expected o address ≡ started r
unfolding expected handle_of
started-expected made got is = rw (made, got) (ap started (sym is))

module _ (codec : Codec) (disk : Disk) (codecs : Codecs) (keys : Keys) (http : Http)
    (platform : Platform) (bind : Bytes → Option Bytes) (b : ServerBuilder) (files : Files)
    (net : Net) where
  start-expected :
      start codec disk codecs keys http platform bind b files net
      ≡ expected
          (build codec disk codecs keys http platform b.config files net)
          (bind (asked_address b.listen_address))
  unfolding start spawn
  start-expected = rw (← listen_or_default-asked_address b.listen_address) (
      on_ready-on_built bind (listen_or_default b.listen_address)
        (build codec disk codecs keys http platform b.config files net))

  -- A server is started exactly when the fork's environment was built and the listener got an address, for the one that was asked for, port 8000 of the local host by default. The handle has that
  -- address, and the thread behind it holds the environment that was built, with no receipts, and the
  -- path that it is to be saved to.
  pub start_lem :
      (r : RunningServer)
      → (start codec disk codecs keys http platform bind b files net ≡ started r) ↔ (
          (built : Built) × (after : Net) × (local_addr : Bytes) × (build codec disk codecs keys
              http platform b.config files net
            ≡ ok (done built, after))
          × (bind (asked_address b.listen_address) ≡ some local_addr)
          × (r ≡ handle_of built local_addr))
  start_lem r = (
    λ h. expected-started _ _ (sym start-expected ∙ h),
    λ (built, after, local_addr, made, got, is). start-expected ∙ started-expected made got is,
  )
