-- ===== src/Auth.antt =====
-- src/auth_tree.rs: the authorizations that a run demanded, and their counts.
pub mod Count
pub mod Display
pub mod Lines
mod Examples
use soroban_fork.Prelude.{ℕ, suc, ◌+◌, Bool, true, false, Option, List, [], ◌∷◌, length}
use soroban_fork.Prelude.Int.{ℤ}
use soroban_fork.Xdr.{Bytes, ScAddress, ScVal}

-- What a contract creation holds is passed on unread.
pub data SorobanAuthorizedFunction : Type 0 where
  contract_fn : ScAddress → Bytes → List ScVal → SorobanAuthorizedFunction
  create_contract create_contract_v2 : SorobanAuthorizedFunction

mutual
  pub data SorobanAuthorizedInvocation : Type 0 where
    invocation : SorobanAuthorizedFunction → Invocations → SorobanAuthorizedInvocation

  pub data Invocations : Type 0 where
    no_invocations : Invocations
    next : SorobanAuthorizedInvocation → Invocations → Invocations

pub record RecordedAuthPayload : Type 0 where
  pub address : Option ScAddress
  pub nonce : Option ℤ
  pub root : SorobanAuthorizedInvocation

pub record AuthTree : Type 0 where
  pub payloads : List RecordedAuthPayload

unfoldable pub from_payloads : List RecordedAuthPayload → AuthTree
from_payloads payloads = record { payloads = payloads }

unfoldable payload_count : AuthTree → ℕ
payload_count t = length t.payloads

mutual
  count_invocations : SorobanAuthorizedInvocation → ℕ
  count_invocations (invocation f subs) = suc (count_all subs)

  -- The sum over the sub-invocations.
  count_all : Invocations → ℕ
  count_all no_invocations = 0
  count_all (next i is) = count_invocations i + count_all is

unfoldable sum_payloads : List RecordedAuthPayload → ℕ
sum_payloads [] = 0
sum_payloads (p ∷ ps) = count_invocations p.root + sum_payloads ps

unfoldable invocation_count : AuthTree → ℕ
invocation_count t = sum_payloads t.payloads

unfoldable has_none : List RecordedAuthPayload → Bool
has_none [] = true
has_none (p ∷ ps) = false

unfoldable is_empty : AuthTree → Bool
is_empty t = has_none t.payloads
