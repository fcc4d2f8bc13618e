-- ===== src/Trace/Steps.antt =====
-- What the parser does on one event of a call, and with a list of completed frames.
use soroban_fork.Prelude.{
  ◌≡◌, ◌∙◌, refl, ap, Bool, true, some, List, [], ◌∷◌, ◌++◌, codes, bytes_eq, from_utf8,
}
use soroban_fork.Xdr.{Bytes, ScVal, void, vec_none, vec}
use soroban_fork.Trace.{
  HostEvent, TraceFrame, Frames, ParserState, frame, no_frames, more, trapped, push, attach,
  on_call, on_return, step, run, parse_fn_call, scval_as_contract, scval_as_symbol_str, event_kind,
  unwrap_args_payload, vec_to_list, finish,
}
use soroban_fork.Trace.Emit.{
  list_to_vec, pack_args, fn_call, fn_return, append_frames, packs_back, IsCall,
}

pub vec_to_list-list_to_vec : (vs : List ScVal) → vec_to_list (list_to_vec vs) ≡ vs
vec_to_list-list_to_vec [] = refl
vec_to_list-list_to_vec (v ∷ vs) = ap (λ ws. v ∷ ws) (vec_to_list-list_to_vec vs)

pub unwrap_args_payload-pack_args :
    (args : List ScVal) → packs_back args ≡ true → unwrap_args_payload (pack_args args) ≡ args
unfolding unwrap_args_payload pack_args packs_back
unwrap_args_payload-pack_args [] h = refl
unwrap_args_payload-pack_args (v ∷ w ∷ vs) h = ap (λ ws. v ∷ w ∷ ws) (vec_to_list-list_to_vec vs)
unwrap_args_payload-pack_args (void ∷ []) h = cc
unwrap_args_payload-pack_args (vec_none ∷ []) h = cc
unwrap_args_payload-pack_args (vec vs ∷ []) h = cc
unwrap_args_payload-pack_args (_ ∷ []) h = refl

pub append_frames-nil : (fs : Frames) → append_frames fs no_frames ≡ fs
unfolding append_frames
append_frames-nil no_frames = refl
append_frames-nil (more f fs) = ap (more f) (append_frames-nil fs)

pub append_frames-push :
    (fs : Frames) (g : TraceFrame) (gs : Frames)
    → append_frames (push fs g) gs ≡ append_frames fs (more g gs)
unfolding append_frames push
append_frames-push no_frames g gs = refl
append_frames-push (more f fs) g gs = ap (more f) (append_frames-push fs g gs)

pub run-append : (s : ParserState) (es ds : List HostEvent) → run s (es ++ ds) ≡ run (run s es) ds
unfolding run
run-append s [] ds = refl
run-append s (e ∷ es) ds = run-append (step s e) es ds

pub call_text : from_utf8 (codes "fn_call") ≡ some (codes "fn_call")
unfolding from_utf8
call_text = refl

pub return_text : from_utf8 (codes "fn_return") ≡ some (codes "fn_return")
unfolding from_utf8
return_text = refl

pub step-fn_call :
    (c f : Bytes) (args : List ScVal) (failed : Bool) (stack : List TraceFrame) (roots : Frames)
    → IsCall c f args
    → step (stack, roots) (fn_call c f args failed)
      ≡ (frame c f args trapped failed no_frames ∷ stack, roots)
unfolding step fn_call event_kind scval_as_symbol_str scval_as_contract parse_fn_call on_call
    bytes_eq
step-fn_call c f args failed stack roots h =
    simp
      (call_text, h.contract_id, h.function_name, unwrap_args_payload-pack_args args h.plain_args)

pub run-nil : (s : ParserState) → run s [] ≡ s
unfolding run
run-nil s = refl

pub step-fn_return :
    (f : Bytes) (v : ScVal) (failed : Bool) (top : TraceFrame) (stack : List TraceFrame)
    (roots : Frames)
    → step (top ∷ stack, roots) (fn_return f v failed) ≡ attach stack roots (finish v failed top)
unfolding step fn_return event_kind scval_as_symbol_str on_return bytes_eq
step-fn_return f v failed top stack roots = simp return_text

unfoldable pub attach_all : ParserState → Frames → ParserState
attach_all s no_frames = s
attach_all (stack, roots) (more f fs) = attach_all (attach stack roots f) fs

pub attach_all-nil : (roots fs : Frames) → attach_all ([], roots) fs ≡ ([], append_frames roots fs)
unfolding attach_all attach
attach_all-nil roots no_frames = rw append_frames-nil
attach_all-nil roots (more f fs) = attach_all-nil (push roots f) fs ∙ rw append_frames-push

unfoldable pub add_children : TraceFrame → Frames → TraceFrame
add_children (frame c f args r rb children) gs = frame c f args r rb (append_frames children gs)

pub attach_all-cons :
    (p : TraceFrame) (stack : List TraceFrame) (roots fs : Frames)
    → attach_all (p ∷ stack, roots) fs ≡ (add_children p fs ∷ stack, roots)
unfolding attach_all attach add_children
attach_all-cons (frame c f args r rb children) stack roots no_frames = rw append_frames-nil
attach_all-cons (frame c f args r rb children) stack roots (more g gs) =
    attach_all-cons (frame c f args r rb (push children g)) stack roots gs ∙ rw append_frames-push
