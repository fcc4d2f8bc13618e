-- ===== src/Trace/Count.antt =====
-- The frames of a trace against the `fn_call` events of the stream.
use soroban_fork.Prelude.{
  ℕ, ◌+◌, ◌≡◌, ◌∙◌, refl, Bool, true, false, ◌&&◌, Option, none, some, List, [], ◌∷◌, arith,
  if◌then◌else◌, ◌==◌, length, codes, bytes_eq, from_utf8,
}
use soroban_fork.Xdr.{ScVal, symbol, bytes}
use soroban_fork.Trace.{
  ContractEventType, HostEvent, TraceFrame, Frames, ParserState, frame, no_frames, more, push,
  attach, on_call, on_return, step, run, drain_frame, drain, from_events, count_frames, frame_count,
  parse_fn_call, scval_as_contract, scval_as_symbol_str, event_kind, kind_is, trap, add_child,
  finish,
}

abbrev is_contract_id : ScVal → Bool
is_contract_id (bytes b) = length b == 32
is_contract_id _ = false

abbrev is_text : ScVal → Bool
is_text (symbol s) = elim (from_utf8 s) [ none ↦ false | some t ↦ true ]
is_text _ = false

abbrev pub has_call_topics : List ScVal → Bool
has_call_topics (k ∷ c ∷ f ∷ _) = is_contract_id c && is_text f
has_call_topics _ = false

abbrev pub is_fn_call : List ScVal → Bool
is_fn_call (symbol s ∷ _) = elim (from_utf8 s) [
  | none ↦ false
  | some t ↦ bytes_eq t (codes "fn_call")
]
is_fn_call _ = false

-- A diagnostic event `[Symbol("fn_call"), Bytes(32 bytes), Symbol(UTF-8 text), ..]`.
abbrev pub opens_frame : HostEvent → Bool
opens_frame e = elim e.type_ [
  | ContractEventType.diagnostic ↦ is_fn_call e.topics && has_call_topics e.topics
  | _ ↦ false
]

pub calls : List HostEvent → ℕ
calls [] = 0
calls (e ∷ es) = (if opens_frame e then 1 else 0) + calls es

stack_count : List TraceFrame → ℕ
stack_count [] = 0
stack_count (f ∷ fs) = count_frames f + stack_count fs

state_count : ParserState → ℕ
state_count (stack, roots) = stack_count stack + frame_count roots

frame_count-push :
    (fs : Frames) (f : TraceFrame) → frame_count (push fs f) ≡ frame_count fs + count_frames f
unfolding frame_count push
frame_count-push no_frames f = omega arith
frame_count-push (more g gs) f = omega (arith, frame_count-push gs f)

count_frames-trap : (f : TraceFrame) → count_frames (trap f) ≡ count_frames f
unfolding count_frames
count_frames-trap (frame c g args r rb children) = refl

count_frames-finish :
    (v : ScVal) (b : Bool) (f : TraceFrame) → count_frames (finish v b f) ≡ count_frames f
unfolding count_frames
count_frames-finish v b (frame c g args r rb children) = refl

count_frames-add_child :
    (f g : TraceFrame) → count_frames (add_child f g) ≡ count_frames f + count_frames g
unfolding count_frames
count_frames-add_child (frame c h args r rb children) g = omega (arith, frame_count-push children g)

state_count-attach :
    (stack : List TraceFrame) (roots : Frames) (f : TraceFrame)
    → state_count (attach stack roots f) ≡ stack_count stack + frame_count roots + count_frames f
unfolding state_count stack_count attach
state_count-attach [] roots f = omega (arith, frame_count-push roots f)
state_count-attach (p ∷ stack) roots f = omega (arith, count_frames-add_child p f)

frame_count-drain_frame :
    (f : TraceFrame) (stack : List TraceFrame) (roots : Frames)
    → frame_count (drain_frame f stack roots)
      ≡ count_frames f + stack_count stack + frame_count roots
unfolding drain_frame stack_count
frame_count-drain_frame f [] roots =
    omega (arith, frame_count-push roots (trap f), count_frames-trap f)
frame_count-drain_frame f (p ∷ stack) roots = omega (
  arith,
  frame_count-drain_frame (add_child p (trap f)) stack roots,
  count_frames-add_child p (trap f),
  count_frames-trap f,
)

frame_count-drain : (s : ParserState) → frame_count (drain s) ≡ state_count s
unfolding drain state_count stack_count
frame_count-drain ([], roots) = omega arith
frame_count-drain (f ∷ stack, roots) = omega (arith, frame_count-drain_frame f stack roots)

opened : Option TraceFrame → ℕ
opened none = 0
opened (some f) = count_frames f

state_count-on_call :
    (o : Option TraceFrame) (s : ParserState) → state_count (on_call o s) ≡ opened o + state_count s
unfolding on_call state_count stack_count opened
state_count-on_call none s = omega arith
state_count-on_call (some f) (stack, roots) = omega arith

state_count-on_return :
    (v : ScVal) (b : Bool) (s : ParserState) → state_count (on_return v b s) ≡ state_count s
unfolding on_return state_count stack_count
state_count-on_return v b ([], roots) = refl
state_count-on_return v b (f ∷ stack, roots) =
    omega (arith, state_count-attach stack roots (finish v b f), count_frames-finish v b f)

opened-parse_fn_call :
    (ts : List ScVal) (d : ScVal) (b : Bool)
    → opened (parse_fn_call ts d b) ≡ (if has_call_topics ts then 1 else 0)
unfolding opened parse_fn_call scval_as_contract scval_as_symbol_str count_frames
opened-parse_fn_call (k ∷ c ∷ f ∷ rest) d b = ground arith
opened-parse_fn_call [] d b = refl
opened-parse_fn_call _ d b = refl

pub parse_fn_call-eq-none :
    (ts : List ScVal) (d : ScVal) (b : Bool)
    → has_call_topics ts ≡ false
    → parse_fn_call ts d b ≡ none
unfolding parse_fn_call scval_as_contract scval_as_symbol_str
parse_fn_call-eq-none (k ∷ c ∷ f ∷ rest) d b h = ground arith
parse_fn_call-eq-none [] d b h = refl
parse_fn_call-eq-none _ d b h = refl

pub is_fn_call_lem : (ts : List ScVal) → kind_is (codes "fn_call") (event_kind ts) ≡ is_fn_call ts
unfolding event_kind scval_as_symbol_str
is_fn_call_lem [] = refl
is_fn_call_lem (symbol s ∷ ts) = ground arith
is_fn_call_lem (_ ∷ ts) = refl

state_count-step :
    (s : ParserState) (e : HostEvent)
    → state_count (step s e) ≡ state_count s + (if opens_frame e then 1 else 0)
unfolding step
state_count-step s e = ground (
  arith,
  is_fn_call_lem e.topics,
  opened-parse_fn_call e.topics e.payload e.failed_call,
  state_count-on_call (parse_fn_call e.topics e.payload e.failed_call) s,
  state_count-on_return e.payload e.failed_call s,
)

state_count-run :
    (s : ParserState) (es : List HostEvent) → state_count (run s es) ≡ state_count s + calls es
unfolding run calls
state_count-run s [] = omega arith
state_count-run s (e ∷ es) = omega (arith, state_count-run (step s e) es, state_count-step s e)

-- The trace of any event stream, malformed ones included, has exactly one frame for each
-- well-formed `fn_call` event of the stream.
pub frame_count-from_events : (es : List HostEvent) → frame_count (from_events es) ≡ calls es
unfolding from_events
frame_count-from_events es =
    frame_count-drain (run ([], no_frames) es) ∙ state_count-run ([], no_frames) es ∙ start
  where
    start : state_count ([], no_frames) + calls es ≡ calls es
    start = unfold state_count stack_count frame_count in omega arith
