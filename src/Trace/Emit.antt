-- ===== src/Trace/Emit.antt =====
-- What the host writes for a call: `fn_call`, the events of the nested calls, `fn_return`. A call that
-- traps, and the calls around it, have no `fn_return`.
use soroban_fork.Prelude.{
  ◌≡◌, Bool, true, false, some, List, [], ◌∷◌, ◌++◌, length, codes, from_utf8,
}
use soroban_fork.Xdr.{Bytes, ScVal, ScVec, void, symbol, bytes, vec_none, vec, no_items, item}
use soroban_fork.Trace.{
  ContractEventType, HostEvent, TraceFrame, Frames, frame, no_frames, more, returned, trapped,
}

abbrev pub list_to_vec : List ScVal → ScVec
list_to_vec [] = no_items
list_to_vec (v ∷ vs) = item v (list_to_vec vs)

-- The host's packing by arity.
unfoldable pub pack_args : List ScVal → ScVal
pack_args [] = void
pack_args (v ∷ []) = v
pack_args (v ∷ w ∷ vs) = vec (item v (item w (list_to_vec vs)))

unfoldable pub fn_call : Bytes → Bytes → List ScVal → Bool → HostEvent
fn_call contract function args failed = record {
  type_ = ContractEventType.diagnostic;
  topics = symbol (codes "fn_call") ∷ bytes contract ∷ symbol function ∷ [];
  payload = pack_args args;
  failed_call = failed;
}

unfoldable pub fn_return : Bytes → ScVal → Bool → HostEvent
fn_return function v failed = record {
  type_ = ContractEventType.diagnostic;
  topics = symbol (codes "fn_return") ∷ symbol function ∷ [];
  payload = v;
  failed_call = failed;
}

unfoldable mutual
  pub emit_frame : TraceFrame → List HostEvent
  emit_frame (frame c f args (returned v) rb children) =
      fn_call c f args rb ∷ (emit children ++ fn_return f v rb ∷ [])
  emit_frame (frame c f args trapped rb children) = fn_call c f args rb ∷ emit children

  pub emit : Frames → List HostEvent
  emit no_frames = []
  emit (more f fs) = emit_frame f ++ emit fs

-- A call that has begun: contract, function, args, and whether its event is marked as failed.
pub record Header : Type 0 where
  pub contract : Bytes
  pub function : Bytes
  pub args : List ScVal
  pub failed : Bool

-- The open calls when the stream ends, the outermost first, each with the calls it had completed.
abbrev pub Spine : Type 0
Spine = List (Header × Frames)

unfoldable pub emit_spine : Spine → List HostEvent
emit_spine [] = []
emit_spine ((h, done) ∷ spine) =
    fn_call h.contract h.function h.args h.failed ∷ (emit done ++ emit_spine spine)

unfoldable pub append_frames : Frames → Frames → Frames
append_frames no_frames gs = gs
append_frames (more f fs) gs = more f (append_frames fs gs)

unfoldable pub trapped_spine : Spine → Frames
trapped_spine [] = no_frames
trapped_spine ((h, done) ∷ spine) =
    more
      (frame h.contract h.function h.args trapped true (append_frames done (trapped_spine spine)))
      no_frames

-- One argument that is void or a vector is not told apart from no argument or several.
unfoldable pub packs_back : List ScVal → Bool
packs_back (void ∷ []) = false
packs_back (vec_none ∷ []) = false
packs_back (vec vs ∷ []) = false
packs_back _ = true

-- A call whose `fn_call` can be read back: its contract has 32 bytes, its name is in UTF-8, and it has no single argument
-- that is void or a vector. The host does make calls with such an argument, and their arguments are not read back.
pub record IsCall (contract function : Bytes) (args : List ScVal) : Type 0 where
  pub contract_id : length contract ≡ 32
  pub function_name : from_utf8 function ≡ some function
  pub plain_args : packs_back args ≡ true

mutual
  pub data IsClosed : TraceFrame → Type 0 where
    closed :
        {c f : Bytes} {args : List ScVal} {children : Frames} (v : ScVal) (rb : Bool)
        → IsCall c f args
        → AllClosed children
        → IsClosed (frame c f args (returned v) rb children)

  pub data AllClosed : Frames → Type 0 where
    nil : AllClosed no_frames
    cons : {f : TraceFrame} {fs : Frames} → IsClosed f → AllClosed fs → AllClosed (more f fs)

abbrev pub IsOpen : Spine → Type 0
IsOpen [] = Unit
IsOpen ((h, done) ∷ spine) = IsCall h.contract h.function h.args × AllClosed done × IsOpen spine
