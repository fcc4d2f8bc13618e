-- ===== src/Trace/RoundTrip.antt =====
-- The parser against the host's emission.
use soroban_fork.Prelude.{◌≡◌, ◌∙◌, refl, ap, Bool, true, false, ◌||◌, List, [], ◌∷◌, ◌++◌}
use soroban_fork.Xdr.{Bytes, ScVal}
use soroban_fork.Trace.{
  HostEvent, TraceFrame, Frames, frame, no_frames, more, returned, trapped, push, attach, run,
  drain_frame, drain, from_events, trap, add_child,
}
use soroban_fork.Trace.Emit.{
  fn_call, fn_return, emit_frame, emit, Header, Spine, emit_spine, append_frames, trapped_spine,
  IsCall, IsClosed, AllClosed, closed, nil, cons, IsOpen,
}
use soroban_fork.Trace.Steps.{
  append_frames-nil, append_frames-push, run-append, step-fn_call, run-nil, step-fn_return,
  attach_all, attach_all-nil, add_children, attach_all-cons,
}

||_self : (b : Bool) → (b || b) ≡ b
||_self true = refl
||_self false = refl

module _ {c f : Bytes} {args : List ScVal} (call : IsCall c f args) (rb : Bool) where
  -- The events after a `fn_call` meet the new frame on top of the stack.
  run-fn_call :
      (stack : List TraceFrame) (roots : Frames) (es : List HostEvent)
      → run (stack, roots) (fn_call c f args rb ∷ es)
        ≡ run (frame c f args trapped rb no_frames ∷ stack, roots) es
  unfolding run
  run-fn_call stack roots es = ap (λ s. run s es) (step-fn_call c f args rb stack roots call)

  run_children :
      (children : Frames) (stack : List TraceFrame) (roots : Frames)
      → attach_all (frame c f args trapped rb no_frames ∷ stack, roots) children
        ≡ (frame c f args trapped rb children ∷ stack, roots)
  unfolding add_children append_frames
  run_children children stack roots =
      attach_all-cons (frame c f args trapped rb no_frames) stack roots children

  run-frame :
      (v : ScVal) (children : Frames) (stack : List TraceFrame) (roots : Frames)
      (es : List HostEvent)
      → run (frame c f args trapped rb no_frames ∷ stack, roots) es
        ≡ attach_all (frame c f args trapped rb no_frames ∷ stack, roots) children
      → run (stack, roots) (fn_call c f args rb ∷ (es ++ fn_return f v rb ∷ []))
        ≡ attach stack roots (frame c f args (returned v) rb children)
  run-frame v children stack roots es h =
      run-fn_call stack roots (es ++ fn_return f v rb ∷ [])
      ∙ run-append _ es (fn_return f v rb ∷ [])
      ∙ ap (λ s. run s (fn_return f v rb ∷ [])) (h ∙ run_children children stack roots)
      ∙ last
    where
      last :
          run (frame c f args trapped rb children ∷ stack, roots) (fn_return f v rb ∷ [])
          ≡ attach stack roots (frame c f args (returned v) rb children)
      last =
          unfold run in
          step-fn_return f v rb (frame c f args trapped rb children) stack roots ∙ rw ||_self

-- A completed call, read from any state, is one more frame there.
mutual
  unfolding emit_frame attach_all

  run-emit_frame :
      {f : TraceFrame}
      → IsClosed f
      → (stack : List TraceFrame) (roots : Frames)
      → run (stack, roots) (emit_frame f) ≡ attach stack roots f
  run-emit_frame (closed {children = gs} v rb call children) stack roots =
      run-frame call rb v gs stack roots (emit gs) (run-emit children _ roots)

  run-emit :
      {fs : Frames}
      → AllClosed fs
      → (stack : List TraceFrame) (roots : Frames)
      → run (stack, roots) (emit fs) ≡ attach_all (stack, roots) fs
  run-emit nil stack roots = run-nil _
  run-emit (cons {f = g} {fs = gs} f fs) stack roots =
      run-append _ (emit_frame g) (emit gs)
      ∙ ap (λ s. run s (emit gs)) (run-emit_frame f stack roots)
      ∙ run-emit fs (attach stack roots g).0 (attach stack roots g).1

add_children-nil : (p : TraceFrame) → add_children p no_frames ≡ p
unfolding add_children
add_children-nil (frame c f args r rb children) = rw append_frames-nil

add_children-one : (p g : TraceFrame) → add_children p (more g no_frames) ≡ add_child p g
unfolding add_children
add_children-one (frame c f args r rb children) g = rw (← append_frames-push) (rw append_frames-nil)

drain-cons :
    (f p : TraceFrame) (stack : List TraceFrame) (roots : Frames)
    → drain (f ∷ p ∷ stack, roots) ≡ drain (add_child p (trap f) ∷ stack, roots)
unfolding drain drain_frame
drain-cons f p stack roots = refl

trap-add_children :
    (c f : Bytes) (args : List ScVal) (rb : Bool) (done gs : Frames)
    → trap (add_children (frame c f args trapped rb done) gs)
      ≡ frame c f args trapped true (append_frames done gs)
unfolding add_children
trap-add_children c f args rb done gs = refl

abbrev open_frame : Header → Frames → TraceFrame
open_frame h done = frame h.contract h.function h.args trapped h.failed done

run-open :
    (h : Header) (done : Frames) (es : List HostEvent)
    → IsCall h.contract h.function h.args
    → AllClosed done
    → (stack : List TraceFrame) (roots : Frames)
    → run (stack, roots) (fn_call h.contract h.function h.args h.failed ∷ (emit done ++ es))
      ≡ run (open_frame h done ∷ stack, roots) es
run-open h done es call closed_calls stack roots =
    run-fn_call call h.failed stack roots (emit done ++ es)
    ∙ run-append _ (emit done) es
    ∙ ap (λ t. run t es)
        (run-emit closed_calls _ roots ∙ run_children call h.failed done stack roots)

-- The calls that are open at the end are trapped frames, one in the other.
drain-spine :
    (spine : Spine)
    → IsOpen spine
    → (p : TraceFrame) (stack : List TraceFrame) (roots : Frames)
    → drain (run (p ∷ stack, roots) (emit_spine spine))
      ≡ drain (add_children p (trapped_spine spine) ∷ stack, roots)
unfolding emit_spine trapped_spine
drain-spine [] o p stack roots = rw (run-nil, add_children-nil)
drain-spine ((h, done) ∷ spine) o p stack roots =
    ap drain (run-open h done (emit_spine spine) o.0 o.1 (p ∷ stack) roots)
    ∙ drain-spine spine o.2 (open_frame h done) (p ∷ stack) roots
    ∙ drain-cons (add_children (open_frame h done) (trapped_spine spine)) p stack roots
    ∙ rw (trap-add_children, add_children-one)

append_frames-one : (fs : Frames) (g : TraceFrame) → append_frames fs (more g no_frames) ≡ push fs g
append_frames-one fs g = rw (← append_frames-push) (rw append_frames-nil)

drain-one : (f : TraceFrame) (roots : Frames) → drain (f ∷ [], roots) ≡ push roots (trap f)
unfolding drain drain_frame
drain-one f roots = refl

drain-nil : (roots : Frames) → drain ([], roots) ≡ roots
unfolding drain
drain-nil roots = refl

drain_roots :
    (spine : Spine)
    → IsOpen spine
    → (roots : Frames)
    → drain (run ([], roots) (emit_spine spine)) ≡ append_frames roots (trapped_spine spine)
unfolding emit_spine trapped_spine
drain_roots [] o roots = rw (run-nil, drain-nil, append_frames-nil)
drain_roots ((h, done) ∷ spine) o roots =
    ap drain (run-open h done (emit_spine spine) o.0 o.1 [] roots)
    ∙ drain-spine spine o.2 (open_frame h done) [] roots
    ∙ rw (drain-one, trap-add_children, append_frames-one)

-- The events of completed calls, and of the calls that are still open when the stream ends, parse to
-- those calls, when their contracts have 32 bytes, their names are in UTF-8 and none of them has a single argument that
-- is void or a vector: the completed ones as they were made, and the open ones as trapped and rolled back, each
-- holding the calls that it had completed.
pub from_events-emit :
    (done : Frames) (spine : Spine)
    → AllClosed done
    → IsOpen spine
    → from_events (emit done ++ emit_spine spine) ≡ append_frames done (trapped_spine spine)
unfolding from_events
from_events-emit done spine c o =
    ap drain (
      run-append ([], no_frames) (emit done) (emit_spine spine)
      ∙ ap (λ s. run s (emit_spine spine))
          (run-emit c [] no_frames ∙ attach_all-nil no_frames done))
    ∙ drain_roots spine o (append_frames no_frames done)
    ∙ unfold append_frames in refl
