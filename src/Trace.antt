-- ===== src/Trace.antt =====
-- src/trace.rs: the diagnostic event stream, and the call tree that `Trace::from_events` builds.
pub mod Emit
pub mod Count
pub mod Rollback
pub mod Steps
pub mod RoundTrip
pub mod Caught
pub mod Noise
pub mod Display
pub mod Log
mod Examples
use soroban_fork.Prelude.{
  ℕ, suc, ◌+◌, Bool, true, false, ◌||◌, Option, none, some, ◌>>=◌, List, [], ◌∷◌, if◌then◌else◌,
  ◌==◌, length, codes, bytes_eq, from_utf8,
}
use soroban_fork.Xdr.{Bytes, ScVal, ScVec, void, symbol, bytes, vec_none, vec, no_items, item}

pub data ContractEventType : Type 0 where
  system contract_event diagnostic : ContractEventType

pub record HostEvent : Type 0 where
  pub type_ : ContractEventType
  pub topics : List ScVal
  pub payload : ScVal
  pub failed_call : Bool

pub data TraceResult : Type 0 where
  returned : ScVal → TraceResult
  trapped : TraceResult

-- A frame: contract, function, args, result, rolled_back, children.
mutual
  pub data TraceFrame : Type 0 where
    frame : Bytes → Bytes → List ScVal → TraceResult → Bool → Frames → TraceFrame

  pub data Frames : Type 0 where
    no_frames : Frames
    more : TraceFrame → Frames → Frames

-- Vec::push
unfoldable pub push : Frames → TraceFrame → Frames
push no_frames f = more f no_frames
push (more g gs) f = more g (push gs f)

pub scval_as_symbol_str : ScVal → Option Bytes
scval_as_symbol_str (symbol s) = from_utf8 s
scval_as_symbol_str _ = none

pub scval_as_contract : ScVal → Option Bytes
scval_as_contract (bytes b) = if length b == 32 then some b else none
scval_as_contract _ = none

abbrev vec_to_list : ScVec → List ScVal
vec_to_list no_items = []
vec_to_list (item v vs) = v ∷ vec_to_list vs

pub unwrap_args_payload : ScVal → List ScVal
unwrap_args_payload void = []
unwrap_args_payload (vec vs) = vec_to_list vs
unwrap_args_payload vec_none = []
unwrap_args_payload single = single ∷ []

pub parse_fn_call : List ScVal → ScVal → Bool → Option TraceFrame
parse_fn_call (_ ∷ c ∷ f ∷ _) payload failed = do
  contract ← scval_as_contract c
  function ← scval_as_symbol_str f
  some (frame contract function (unwrap_args_payload payload) trapped failed no_frames)
parse_fn_call _ payload failed = none

-- The open frames, the innermost first, and the finished roots.
abbrev pub ParserState : Type 0
ParserState = List TraceFrame × Frames

abbrev add_child : TraceFrame → TraceFrame → TraceFrame
add_child (frame c f args r rb children) child = frame c f args r rb (push children child)

pub attach : List TraceFrame → Frames → TraceFrame → ParserState
attach (parent ∷ stack) roots f = (add_child parent f ∷ stack, roots)
attach [] roots f = ([], push roots f)

abbrev finish : ScVal → Bool → TraceFrame → TraceFrame
finish v failed (frame c f args r rb children) = frame c f args (returned v) (failed || rb) children

on_call : Option TraceFrame → ParserState → ParserState
on_call none s = s
on_call (some f) (stack, roots) = (f ∷ stack, roots)

on_return : ScVal → Bool → ParserState → ParserState
on_return v failed ([], roots) = ([], roots)
on_return v failed (f ∷ stack, roots) = attach stack roots (finish v failed f)

pub event_kind : List ScVal → Option Bytes
event_kind [] = none
event_kind (t ∷ _) = scval_as_symbol_str t

abbrev pub kind_is : Bytes → Option Bytes → Bool
kind_is name none = false
kind_is name (some k) = bytes_eq k name

abbrev is_diagnostic : ContractEventType → Bool
is_diagnostic diagnostic = true
is_diagnostic _ = false

-- One round of the loop over the events.
pub step : ParserState → HostEvent → ParserState
step s e =
    if is_diagnostic e.type_
    then if kind_is (codes "fn_call") (event_kind e.topics)
      then on_call (parse_fn_call e.topics e.payload e.failed_call) s
      else if kind_is (codes "fn_return") (event_kind e.topics)
      then on_return e.payload e.failed_call s
      else s
    else s

pub run : ParserState → List HostEvent → ParserState
run s [] = s
run s (e ∷ es) = run (step s e) es

abbrev trap : TraceFrame → TraceFrame
trap (frame c f args r rb children) = frame c f args trapped true children

-- The loop that drains the stack: the popped frame, the frames under it, and the roots.
pub drain_frame : TraceFrame → List TraceFrame → Frames → Frames
drain_frame f [] roots = push roots (trap f)
drain_frame f (parent ∷ stack) roots = drain_frame (add_child parent (trap f)) stack roots

pub drain : ParserState → Frames
drain ([], roots) = roots
drain (f ∷ stack, roots) = drain_frame f stack roots

-- Trace::from_events
pub from_events : List HostEvent → Frames
from_events events = drain (run ([], no_frames) events)

mutual
  pub count_frames : TraceFrame → ℕ
  count_frames (frame c f args r rb children) = suc (frame_count children)

  -- Trace::frame_count, and the sum over the children.
  pub frame_count : Frames → ℕ
  frame_count no_frames = 0
  frame_count (more f fs) = count_frames f + frame_count fs

abbrev is_trapped : TraceResult → Bool
is_trapped trapped = true
is_trapped (returned v) = false

mutual
  pub any_failure : TraceFrame → Bool
  any_failure (frame c f args r rb children) = rb || is_trapped r || had_failures children

  -- Trace::had_failures, and the test of the children.
  pub had_failures : Frames → Bool
  had_failures no_frames = false
  had_failures (more f fs) = any_failure f || had_failures fs
