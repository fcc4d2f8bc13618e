-- ===== src/Lib.antt =====
-- A model of soroban-fork, a fork of a live Soroban network for tests: a lazily filled copy of the
-- ledger behind a Soroban environment, served to contracts in process and to clients over JSON-RPC.
--
-- The parts, and the files that model them:
-- * src/trace.rs, the call tree of a run from the host's diagnostic events: Trace. The stack of
--   open frames is a list with the innermost frame first; Trace/Emit is the independent description
--   of the event stream that a tree of calls produces. Its Display is Trace/Display, over the
--   renderers of values and addresses in Render, which src/auth_tree.rs shares; Trace/Log is the
--   same text as a log of the events.
-- * src/source.rs, the cache of ledger entries over an RPC client: Source. Its state is the record
--   Source (cache, fetch counter, fetch mode); the operations have the code's names. A panic is the
--   value panic of Prelude/Outcome. Source/View is the abstract view: what is known of each key;
--   Source/KeyText is a key's text in the log.
-- * src/rpc.rs, the client of the remote node: Rpc, with the waiting times in Rpc/Backoff, one
--   attempt in Rpc/Post, the retries in Rpc/Retry, the calls in Rpc/Fetch, and the batches of keys
--   in Rpc/Batches. Its state is the number of requests sent, the delays slept and the state of the
--   random generator, whose seed and life are in Rpc/Generator; Rpc/Snippet is the part of a body
--   that an error quotes.
-- * src/error.rs, the kinds of error: Errors. A function that fails returns one in place of its
--   result.
-- * src/cache.rs, and save_cache and the drop of an environment in src/lib.rs: Cache. The files are
--   a finite map from paths to texts, and the moment at which a crash can strike is between two of
--   its states; a rename is atomic, as POSIX has it.
-- * src/auth_tree.rs, the recorded authorizations, their counts and their Display: Auth.
-- * src/test_accounts.rs, the funded accounts: Accounts.
-- * src/fees.rs, the fee schedule that is read through the source: Fees.
-- * src/lib.rs, the environment's clock, protocol version and fee cell: Env, with its reports of
--   the last invocation in Env/Debug; ForkConfig and its build: Build; deal_token: Deal.
-- * src/server/actor.rs, the worker that runs the server's commands one by one: Actor, with its
--   messages in Actor/Messages, the calls that it answers in Actor/Simulation and Actor/Submission,
--   and the code that it calls and the crate does not contain in Actor/Host.
-- * src/server/handlers.rs, the JSON-RPC methods: Handlers. A handler's code runs against the
--   worker, or none once its thread has died, and answers or refuses. The methods that only read
--   stand in Handlers/Queries, the sending of a transaction, the writing of an entry and the
--   closing of ledgers in Handlers/Commands, the methods that install entries in Handlers/Install,
--   those that set balances in Handlers/Balance and Handlers/Token, the reports of runs in
--   Handlers/Replies, and the routing of a request to its method in Handlers/Dispatch. serde's
--   readings of a method's parameters are parameters of the model.
-- * src/server/mod.rs, and spawn of src/server/actor.rs: Server. The serving task, the worker
--   thread and the process are a step relation in Server/Lifecycle, which lets them move in any
--   order. A command that panics unwinds the worker while the server serves; what it has left of
--   the source is then any source.
-- * src/workspace.rs, the build of a contract by cargo: Workspace.
-- * src/bin/soroban-fork.rs, the command serve: Cli.
-- * The hex codec of src/server/actor.rs and src/server/handlers.rs: Hex.
-- Xdr, Ledger and Tx hold the ledger's data types, as far as the crate builds and matches them;
-- Prelude holds tests, lists, finite maps, outcomes and machine words.
--
-- The parts meet at the source: the worker has the host read it by get, writes the host's changes
-- by apply_changes, raises sequence numbers by bump_account_seq, and resolves the fee schedule
-- through it.
--
-- Parameters stand for code outside the crate: the XDR codec (whose one assumed law is that an
-- entry that encodes decodes to itself), the remote node's answers, which may differ from request
-- to request, the Soroban host, as a tree of reads of the source, SHA-256, Ed25519, strkeys,
-- base64, serde, cargo, and the fee formula. Contract and diagnostic events and authorization
-- entries are named by numbers, since the worker passes them on unread; Auth has the trees of the
-- authorizations.
--
-- Machine words are written out: saturating and wrapping additions are those of the code. Two
-- definitions run on fuel: the decimal printer, whose ten digits hold every u32, nineteen every
-- i64, twenty every u64 and thirty-nine every i128 and u128; and the splitting of keys into
-- batches, which has as much fuel as there are keys. The client's retry loop recurses on the
-- attempts that remain.
--
-- Not modelled: locks (the operations on a source are taken one at a time, as the worker runs
-- them), the queue's bound, logging, axum and the HTTP transport, signals, the texts of errors, the
-- banner of the command line and its argument parsing, and the getters of ForkedEnv that return a
-- field.
pub mod Prelude
pub mod Xdr
pub mod Ledger
pub mod Trace
pub mod Source
pub mod Fees
pub mod Hex
pub mod Env
pub mod Tx
pub mod Actor
pub mod Handlers
pub mod Errors
pub mod Rpc
pub mod Accounts
pub mod Cache
pub mod Build
pub mod Render
pub mod Deal
pub mod Workspace
pub mod Server
pub mod Cli
pub mod Auth
