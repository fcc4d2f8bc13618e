-- ===== src/Trace/Rollback.antt =====
-- Which frames count as failed, and which events decide it.
use soroban_fork.Prelude.{
  ◌≡◌, refl, Bool, true, false, ◌||◌, Option, none, some, List, [], ◌∷◌, arith, ◌>>=◌, if_both,
}
use soroban_fork.Xdr.{Bytes, ScVal}
use soroban_fork.Trace.{
  HostEvent, TraceFrame, Frames, TraceResult, ParserState, frame, no_frames, more, push, returned,
  trapped, attach, on_call, on_return, step, run, drain_frame, drain, from_events, parse_fn_call,
  any_failure, had_failures, trap, add_child, finish, is_trapped, scval_as_contract,
  scval_as_symbol_str,
}

-- Every trapped frame of the tree is marked as rolled back.
mutual
  pub data IsMarked : TraceFrame → Type 0 where
    mark :
        {c f : Bytes} {args : List ScVal} {r : TraceResult} {rb : Bool} {children : Frames}
        → (is_trapped r ≡ true → rb ≡ true)
        → AllMarked children
        → IsMarked (frame c f args r rb children)

  pub data AllMarked : Frames → Type 0 where
    nil : AllMarked no_frames
    cons : {f : TraceFrame} {fs : Frames} → IsMarked f → AllMarked fs → AllMarked (more f fs)

abbrev HasMarked : TraceFrame → Type 0
HasMarked (frame c f args r rb children) = AllMarked children

abbrev StackMarked : List TraceFrame → Type 0
StackMarked [] = Unit
StackMarked (f ∷ fs) = HasMarked f × StackMarked fs

abbrev StateMarked : ParserState → Type 0
StateMarked (stack, roots) = StackMarked stack × AllMarked roots

push-AllMarked : {fs : Frames} {f : TraceFrame} → AllMarked fs → IsMarked f → AllMarked (push fs f)
unfolding push
push-AllMarked nil m = cons m nil
push-AllMarked (cons g gs) m = cons g (push-AllMarked gs m)

trap-IsMarked : (f : TraceFrame) → HasMarked f → IsMarked (trap f)
trap-IsMarked (frame c f args r rb children) h = mark (λ _. refl) h

finish-IsMarked : (v : ScVal) (b : Bool) (f : TraceFrame) → HasMarked f → IsMarked (finish v b f)
finish-IsMarked v b (frame c f args r rb children) h = mark (λ e. cc) h

add_child-HasMarked : (p f : TraceFrame) → HasMarked p → IsMarked f → HasMarked (add_child p f)
add_child-HasMarked (frame c g args r rb children) f h m = push-AllMarked h m

attach-StateMarked :
    (stack : List TraceFrame) (roots : Frames) (f : TraceFrame)
    → StateMarked (stack, roots)
    → IsMarked f
    → StateMarked (attach stack roots f)
unfolding attach
attach-StateMarked [] roots f s m = (tt, push-AllMarked s.1 m)
attach-StateMarked (p ∷ stack) roots f s m = ((add_child-HasMarked p f s.0.0 m, s.0.1), s.1)

abbrev OpensMarked : Option TraceFrame → Type 0
OpensMarked none = Unit
OpensMarked (some f) = HasMarked f

OpensMarked-bind :
    {A : Type 0} (o : Option A) (f : A → Option TraceFrame)
    → ((a : A) → OpensMarked (f a))
    → OpensMarked (o >>= f)
OpensMarked-bind none f h = tt
OpensMarked-bind (some a) f h = h a

parse_fn_call-OpensMarked :
    (ts : List ScVal) (d : ScVal) (b : Bool) → OpensMarked (parse_fn_call ts d b)
unfolding parse_fn_call
parse_fn_call-OpensMarked (k ∷ c ∷ f ∷ rest) d b =
    OpensMarked-bind (scval_as_contract c) _
      λ _. OpensMarked-bind (scval_as_symbol_str f) _ λ _. nil
parse_fn_call-OpensMarked [] d b = tt
parse_fn_call-OpensMarked _ d b = tt

on_call-StateMarked :
    (o : Option TraceFrame) (s : ParserState)
    → OpensMarked o
    → StateMarked s
    → StateMarked (on_call o s)
unfolding on_call
on_call-StateMarked none s m h = h
on_call-StateMarked (some f) (stack, roots) m h = ((m, h.0), h.1)

on_return-StateMarked :
    (v : ScVal) (b : Bool) (s : ParserState) → StateMarked s → StateMarked (on_return v b s)
unfolding on_return
on_return-StateMarked v b ([], roots) h = h
on_return-StateMarked v b (f ∷ stack, roots) h =
    attach-StateMarked stack roots (finish v b f) (h.0.1, h.1) (finish-IsMarked v b f h.0.0)

step-StateMarked : (s : ParserState) (e : HostEvent) → StateMarked s → StateMarked (step s e)
unfolding step
step-StateMarked s e h =
    if_both StateMarked _
      (if_both StateMarked _
        (on_call-StateMarked _ s (parse_fn_call-OpensMarked e.topics e.payload e.failed_call) h)
        (if_both StateMarked _ (on_return-StateMarked e.payload e.failed_call s h) h))
      h

run-StateMarked : (s : ParserState) (es : List HostEvent) → StateMarked s → StateMarked (run s es)
unfolding run
run-StateMarked s [] h = h
run-StateMarked s (e ∷ es) h = run-StateMarked (step s e) es (step-StateMarked s e h)

drain_frame-AllMarked :
    (f : TraceFrame) (stack : List TraceFrame) (roots : Frames)
    → HasMarked f
    → StackMarked stack
    → AllMarked roots
    → AllMarked (drain_frame f stack roots)
unfolding drain_frame
drain_frame-AllMarked f [] roots h s r = push-AllMarked r (trap-IsMarked f h)
drain_frame-AllMarked f (p ∷ stack) roots h s r =
    drain_frame-AllMarked (add_child p (trap f)) stack roots
      (add_child-HasMarked p (trap f) s.0 (trap-IsMarked f h)) s.1 r

drain-AllMarked : (s : ParserState) → StateMarked s → AllMarked (drain s)
unfolding drain
drain-AllMarked ([], roots) h = h.1
drain-AllMarked (f ∷ stack, roots) h = drain_frame-AllMarked f stack roots h.0.0 h.0.1 h.1

pub from_events-AllMarked : (es : List HostEvent) → AllMarked (from_events es)
unfolding from_events
from_events-AllMarked es = drain-AllMarked (run ([], no_frames) es) (run-StateMarked _ es (tt, nil))

mutual
  rolled_back : TraceFrame → Bool
  rolled_back (frame c f args r rb children) = rb || any_rolled_back children

  -- Some frame of the tree is marked as rolled back, whatever the results are.
  pub any_rolled_back : Frames → Bool
  any_rolled_back no_frames = false
  any_rolled_back (more f fs) = rolled_back f || any_rolled_back fs

mutual
  unfolding any_failure rolled_back

  any_failure-rolled_back : {f : TraceFrame} → IsMarked f → any_failure f ≡ rolled_back f
  any_failure-rolled_back (mark {r = trapped} {rb = rb} h m) =
      ground (arith, h refl, had_failures-any_rolled_back m)
  any_failure-rolled_back (mark {r = returned v} {rb = rb} h m) =
      ground (arith, had_failures-any_rolled_back m)

  had_failures-any_rolled_back : {fs : Frames} → AllMarked fs → had_failures fs ≡ any_rolled_back fs
  had_failures-any_rolled_back nil = refl
  had_failures-any_rolled_back (cons f fs) =
      ground (arith, any_failure-rolled_back f, had_failures-any_rolled_back fs)

-- Whatever the event stream, every trapped frame of its trace, at any depth, is marked as rolled back, and
-- `had_failures` of the trace is whether some frame of the tree is so marked.
pub had_failures-from_events :
    (es : List HostEvent)
    → AllMarked (from_events es)
      × (had_failures (from_events es) ≡ any_rolled_back (from_events es))
had_failures-from_events es =
    let marked = from_events-AllMarked es in (marked, had_failures-any_rolled_back marked)
