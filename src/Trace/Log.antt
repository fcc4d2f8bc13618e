-- ===== src/Trace/Log.antt =====
-- A trace as a log of the events that it was read from: what `println!` in the host would print, call by call.
use soroban_fork.Prelude.{
  ℕ, zero, suc, Bool, true, false, ◌-◌, leb, length, take, drop, map, arith, List, [], ◌∷◌, ◌++◌,
  append_assoc, append-nil, ◌≡◌, refl, ap, ◌∙◌, codes, bytes_eq, if◌then◌else◌, sym,
}
use soroban_fork.Xdr.{Bytes, ScVal, symbol, bytes, void, vec_none, vec}
use soroban_fork.Render.{
  Texts, line_end, render_scval, render_args, render_args_later, indent, abbreviate_strkey,
}
use soroban_fork.Trace.{HostEvent, TraceFrame, Frames, more, returned, vec_to_list, from_events}
use soroban_fork.Trace.Emit.{
  fn_call, fn_return, emit_frame, emit, IsCall, IsClosed, closed, AllClosed, nil, cons, emit_spine,
  trapped_spine, pack_args, packs_back,
}
use soroban_fork.Trace.RoundTrip.{from_events-emit}
use soroban_fork.Trace.Steps.{vec_to_list-list_to_vec, append_frames-nil}
use soroban_fork.Trace.Display.{
  rolled_back_mark, call_line, result_line, render_frame, render_frames, display,
}

abbrev one_less : ℕ → ℕ
one_less zero = zero
one_less (suc n) = n

-- The arguments that a `fn_call` carries.
abbrev arguments : ScVal → List ScVal
arguments void = []
arguments (vec items) = vec_to_list items
arguments v = v ∷ []

arguments-pack_args :
    (args : List ScVal) → packs_back args ≡ true → arguments (pack_args args) ≡ args
unfolding pack_args packs_back
arguments-pack_args [] h = refl
arguments-pack_args (v ∷ w ∷ vs) h = ap (λ ws. v ∷ w ∷ ws) (vec_to_list-list_to_vec vs)
arguments-pack_args (void ∷ []) h = cc
arguments-pack_args (vec_none ∷ []) h = cc
arguments-pack_args (vec vs ∷ []) h = cc
arguments-pack_args (_ ∷ []) h = refl

parsed :
    (f : TraceFrame) (fs : Frames)
    → AllClosed (more f fs)
    → from_events (emit (more f fs) ++ []) ≡ more f fs
unfolding emit_spine trapped_spine
parsed f fs all = from_events-emit (more f fs) [] all tt ∙ append_frames-nil (more f fs)

-- The text of a value's list of items, with commas.
abbrev joined : List Bytes → Bytes
joined [] = []
joined (x ∷ []) = x
joined (x ∷ y ∷ xs) = x ++ (codes ", " ++ joined (y ∷ xs))

-- Two spaces for each open call.
abbrev pad : ℕ → Bytes
pad zero = []
pad (suc n) = b' ' ∷ b' ' ∷ pad n

-- An address of more than twelve characters by its first and last four.
abbrev short : Bytes → Bytes
short s =
    if leb (length s) 12 then s else take 4 s ++ (0xe2 ∷ 0x80 ∷ 0xa6 ∷ [] ++ drop (length s - 4) s)

abbrev mark : Bool → Bytes
mark true = codes " [rolled back]"
mark false = []

indent-pad : (n : ℕ) → indent n ≡ pad n
unfolding indent
indent-pad zero = refl
indent-pad (suc n) = ap (λ rest. b' ' ∷ b' ' ∷ rest) (indent-pad n)

abbreviate_strkey-short : (s : Bytes) → abbreviate_strkey s ≡ short s
unfolding abbreviate_strkey
abbreviate_strkey-short s = ground arith

rolled_back_mark-mark : (b : Bool) → rolled_back_mark b ≡ mark b
unfolding rolled_back_mark
rolled_back_mark-mark true = refl
rolled_back_mark-mark false = refl

module _ (texts : Texts) where
  -- The line that stands for a call: the indentation, the contract, the name, the arguments and the mark.
  abbrev logged_call : ℕ → Bytes → Bytes → List ScVal → Bool → Bytes
  logged_call open_calls contract function args failed =
      pad open_calls
      ++ (codes "["
          ++ (short (texts.contract_strkey contract)
              ++ (codes "] "
                  ++ (function
                      ++ (codes "("
                          ++ (joined (map (render_scval texts) args)
                              ++ (codes ")" ++ (mark failed ++ codes "\n"))))))))

  -- The line that stands for a return: the indentation, an arrow and the value.
  abbrev logged_return : ℕ → ScVal → Bytes
  logged_return open_calls v =
      pad open_calls
      ++ (0xe2 ∷ 0x86 ∷ 0x90 ∷ [] ++ (codes " " ++ (render_scval texts v ++ codes "\n")))

  render_args_later-joined :
      (v : ScVal) (vs : List ScVal)
      → render_scval texts v ++ render_args_later texts vs
        ≡ joined (map (render_scval texts) (v ∷ vs))
  unfolding render_args_later
  render_args_later-joined v [] = append-nil _
  render_args_later-joined v (u ∷ us) =
      ap (λ rest. render_scval texts v ++ (codes ", " ++ rest)) (render_args_later-joined u us)

  render_args-joined :
      (vs : List ScVal) → render_args texts vs ≡ joined (map (render_scval texts) vs)
  unfolding render_args
  render_args-joined [] = refl
  render_args-joined (v ∷ vs) = render_args_later-joined v vs

  call_line-logged_call :
      (d : ℕ) (c f : Bytes) (args : List ScVal) (failed : Bool)
      → call_line texts d c f args failed ≡ logged_call d c f args failed
  unfolding call_line
  call_line-logged_call d c f args failed =
      rw
        (
          indent-pad d,
          abbreviate_strkey-short (texts.contract_strkey c),
          render_args-joined args,
          rolled_back_mark-mark failed,
        )
        refl

  result_line-logged_return :
      (d : ℕ) (v : ScVal) → result_line texts d (returned v) ≡ logged_return d v
  unfolding result_line
  result_line-logged_return d v = rw (indent-pad d) refl

  -- The line of an event when so many calls are open, and how many are open after it.
  unfoldable line_of : ℕ → List ScVal → ScVal → Bool → Bytes × ℕ
  line_of open_calls (symbol kind ∷ bytes contract ∷ symbol function ∷ []) payload failed =
      if bytes_eq kind (codes "fn_call")
      then (logged_call open_calls contract function (arguments payload) failed, suc open_calls)
      else ([], open_calls)
  line_of open_calls (symbol kind ∷ symbol function ∷ []) payload failed =
      if bytes_eq kind (codes "fn_return")
      then (logged_return open_calls payload, one_less open_calls)
      else ([], open_calls)
  line_of open_calls topics payload failed = ([], open_calls)

  unfoldable pub log : ℕ → List HostEvent → Bytes
  unfolding line_of
  log open_calls [] = []
  log open_calls (e ∷ es) =
      let line = line_of open_calls e.topics e.payload e.failed_call in line.0 ++ log line.1 es

  log-fn_call :
      (d : ℕ) (c f : Bytes) (args : List ScVal) (failed : Bool) (es : List HostEvent)
      → IsCall c f args
      → log d (fn_call c f args failed ∷ es) ≡ call_line texts d c f args failed ++ log (suc d) es
  unfolding log fn_call bytes_eq
  log-fn_call d c f args failed es call =
      rw (arguments-pack_args args call.plain_args, ← call_line-logged_call d c f args failed) refl

  log-fn_return :
      (d : ℕ) (f : Bytes) (v : ScVal) (failed : Bool) (es : List HostEvent)
      → log (suc d) (fn_return f v failed ∷ es) ≡ result_line texts (suc d) (returned v) ++ log d es
  unfolding log fn_return bytes_eq
  log-fn_return d f v failed es =
      ap (λ line. line ++ log d es) (sym (result_line-logged_return (suc d) v))

  mutual
    unfolding emit_frame emit render_frame render_frames

    log-emit_frame :
        {f : TraceFrame}
        → IsClosed f
        → (d : ℕ) (es : List HostEvent)
        → log d (emit_frame f ++ es) ≡ render_frame texts f d ++ log d es
    log-emit_frame (closed {c} {f} {args} {children} v rb call done) d es = simp (
      append_assoc,
      log-fn_call d c f args rb (emit children ++ fn_return f v rb ∷ es) call,
      log-emit done (suc d) (fn_return f v rb ∷ es),
      log-fn_return d f v rb es,
    )

    log-emit :
        {fs : Frames}
        → AllClosed fs
        → (d : ℕ) (es : List HostEvent)
        → log d (emit fs ++ es) ≡ render_frames texts fs d ++ log d es
    log-emit nil d es = refl
    log-emit (cons {f} {fs} first others) d es =
        simp (append_assoc, log-emit_frame first d (emit fs ++ es), log-emit others d es)

  -- The trace of completed calls, at least one, whose contracts have 32 bytes, whose names are in UTF-8 and none of
  -- which has a single argument that is void or a vector, reads as the log of the events that the host wrote for them,
  -- in their order: a line for each call and a line for each return, indented by the number of calls that are open,
  -- with the contract, the name and the arguments, and a mark where the host marked the call as failed.
  pub display-from_events :
      (f : TraceFrame) (fs : Frames)
      → AllClosed (more f fs)
      → display texts (from_events (emit (more f fs)))
        ≡ codes "[TRACE]" ++ (line_end ++ log 1 (emit (more f fs)))
  unfolding display log
  display-from_events f fs all =
      let es = emit (more f fs) in
      ap (display texts) (ap from_events (sym (append-nil es)) ∙ parsed f fs all)
      ∙ ap (λ body. codes "[TRACE]" ++ (line_end ++ body))
          (sym (append-nil _) ∙ sym (log-emit all 1 []) ∙ ap (log 1) (append-nil es))
