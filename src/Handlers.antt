-- ===== src/Handlers.antt =====
-- src/server/handlers.rs: JSON-RPC methods, from decoded parameters to the body of the response. Each
-- talks to the worker of src/server/actor.rs through `ActorHandle::send`.
pub mod Extract
pub mod Refusal
pub mod Lookup
pub mod Params
pub mod Install
pub mod Installed
pub mod Etched
pub mod Balance
pub mod Balances
pub mod Token
pub mod Minted
pub mod Responses
pub mod Replies
pub mod Receipt
pub mod Dispatch
pub mod Routes
pub mod Queries
pub mod Commands
mod Sample
mod Examples
mod Runs
use soroban_fork.Prelude.{
  ℕ, ◌*◌, ◌==◌, Bool, true, false, Option, none, some, List, [], ◌∷◌, ◌++◌, codes, length,
}
use soroban_fork.Prelude.Outcome.{ok, panic}
use soroban_fork.Xdr.{Bytes}
use soroban_fork.Ledger.{LedgerKey, LedgerEntry, LedgerEntryData}
use soroban_fork.Tx.{
  HostFunction, MuxedAccount, OperationBody, Operation, Transaction, TransactionEnvelope,
}
use soroban_fork.Hex.{hex_lower}
use soroban_fork.Actor.{Worker, step}
use soroban_fork.Prelude.Decimal.{decimal}
use soroban_fork.Actor.Host.{World, success, error}
use soroban_fork.Actor.Messages.{
  Command, Reply, NetworkReply, LatestLedgerReply, LedgersPageReply, LedgerEntriesReply, SendReply,
  CloseLedgersReply, ResolvedEntry,
}

-- The errors of a handler, without their messages.
pub data JsonRpcError : Type 0 where
  method_not_found invalid_params internal_error : JsonRpcError

pub data Answer (A : Type 0) : Type 0 where
  answered : A → Answer A
  refused : JsonRpcError → Answer A

-- A handler's code: it may fail, and it runs against the worker, `none` once its thread has died.
abbrev pub Rpc : Type 0 → Type 0
Rpc A = Option Worker → Answer A × Option Worker

abbrev pub and_then :
    {A B : Type 0} → (A → Rpc B) → Answer A × Option Worker → Answer B × Option Worker
and_then f (answered a, s) = f a s
and_then f (refused e, s) = (refused e, s)

infixl 5 ◌>>=◌
abbrev pub ◌>>=◌ : {A B : Type 0} → Rpc A → (A → Rpc B) → Rpc B
m >>= f = λ s. and_then f (m s)

abbrev pub respond : {A : Type 0} → A → Rpc A
respond a s = (answered a, s)

-- `ok_or_else(..)?` and `map_err(..)?`
abbrev pub or_refuse : {A : Type 0} → JsonRpcError → Option A → Rpc A
or_refuse e none s = (refused e, s)
or_refuse e (some a) s = (answered a, s)

-- The base64 and XDR codecs of the wire, which are not part of the crate.
pub record Wire : Type 0 where
  pub b64_decode : Bytes → Option Bytes
  pub b64_encode : Bytes → Bytes
  pub encode_key : LedgerKey → Option Bytes
  pub encode_data : LedgerEntryData → Option Bytes

-- The number of a u64 as text: at most twenty digits.
abbrev pub to_text : ℕ → Bytes
to_text n = decimal 20 n

-- What each reply channel takes. The worker answers a command by the reply of its kind.
unfoldable pub as_network : Reply → Option NetworkReply
as_network (Reply.network r) = some r
as_network _ = none

unfoldable pub as_latest_ledger : Reply → Option LatestLedgerReply
as_latest_ledger (Reply.latest_ledger r) = some r
as_latest_ledger _ = none

unfoldable pub as_ledgers_page : Reply → Option LedgersPageReply
as_ledgers_page (Reply.ledgers_page r) = some r
as_ledgers_page _ = none

unfoldable pub as_ledger_entries : Reply → Option LedgerEntriesReply
as_ledger_entries (Reply.ledger_entries r) = some r
as_ledger_entries _ = none

unfoldable pub as_sent : Reply → Option SendReply
as_sent (Reply.sent r) = some r
as_sent _ = none

unfoldable pub as_entry_set : Reply → Option (Unit {0})
as_entry_set Reply.entry_set = some tt
as_entry_set _ = none

pub as_ledgers_closed : Reply → Option CloseLedgersReply
as_ledgers_closed (Reply.ledgers_closed r) = some r
as_ledgers_closed _ = none

module _ (w : World) (wire : Wire) (now : ℕ) where
  -- ActorHandle::send, where an error is `internal_error`: a panic of the worker closes the channel.
  unfoldable pub send : {A : Type 0} → (Reply → Option A) → Command → Rpc A
  send channel c none = (refused JsonRpcError.internal_error, none)
  send channel c (some s) = elim (step w now s c) [
    | panic ↦ (refused JsonRpcError.internal_error, none)
    | ok (reply, t) ↦ or_refuse JsonRpcError.internal_error (channel reply) (some t)
  ]
