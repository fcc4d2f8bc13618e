-- ===== src/Trace/Noise.antt =====
-- Events that are neither well-formed calls nor returns.
use soroban_fork.Prelude.{
  ◌≡◌, refl, Bool, false, ◌||◌, none, some, List, [], ◌∷◌, arith, codes, bytes_eq, if◌then◌else◌,
  from_utf8,
}
use soroban_fork.Xdr.{ScVal, symbol}
use soroban_fork.Trace.{
  ContractEventType, HostEvent, ParserState, step, run, from_events, on_call, event_kind, kind_is,
  scval_as_symbol_str,
}
use soroban_fork.Trace.Count.{opens_frame, parse_fn_call-eq-none, is_fn_call_lem}

abbrev is_fn_return : List ScVal → Bool
is_fn_return (symbol s ∷ _) = elim (from_utf8 s) [
  | none ↦ false
  | some t ↦ bytes_eq t (codes "fn_return")
]
is_fn_return _ = false

-- A diagnostic event with the topic `fn_return`.
abbrev pub closes_frame : HostEvent → Bool
closes_frame e = elim e.type_ [ ContractEventType.diagnostic ↦ is_fn_return e.topics | _ ↦ false ]

pub calls_and_returns : List HostEvent → List HostEvent
calls_and_returns [] = []
calls_and_returns (e ∷ es) =
    let rest = calls_and_returns es in if opens_frame e || closes_frame e then e ∷ rest else rest

is_fn_return_lem : (ts : List ScVal) → kind_is (codes "fn_return") (event_kind ts) ≡ is_fn_return ts
unfolding event_kind scval_as_symbol_str
is_fn_return_lem [] = refl
is_fn_return_lem (symbol s ∷ ts) = ground arith
is_fn_return_lem (_ ∷ ts) = refl

step_noise :
    (s : ParserState) (e : HostEvent) → (opens_frame e || closes_frame e) ≡ false → step s e ≡ s
unfolding step on_call
step_noise s e h = ground (
  arith,
  is_fn_call_lem e.topics,
  is_fn_return_lem e.topics,
  parse_fn_call-eq-none e.topics e.payload e.failed_call,
)

run-calls_and_returns :
    (s : ParserState) (es : List HostEvent) → run s (calls_and_returns es) ≡ run s es
unfolding run calls_and_returns
run-calls_and_returns s [] = refl
run-calls_and_returns s (e ∷ es) =
    ground (arith, run-calls_and_returns (step s e) es, run-calls_and_returns s es, step_noise s e)

-- The trace depends on the well-formed `fn_call` and the `fn_return` events alone: contract and
-- system events, other diagnostics and malformed calls can be dropped from the stream.
pub from_events-calls_and_returns :
    (es : List HostEvent) → from_events (calls_and_returns es) ≡ from_events es
unfolding from_events
from_events-calls_and_returns es = rw run-calls_and_returns
