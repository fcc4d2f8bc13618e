-- ===== src/Trace/Examples.antt =====
-- The theorems on traces at concrete event streams.
use soroban_fork.Prelude.{◌≡◌, refl, true, false, List, [], ◌∷◌, ◌++◌, codes, from_utf8, bytes_eq}
use soroban_fork.Xdr.{Bytes, u32, void}
use soroban_fork.Trace.{
  HostEvent, Frames, frame, no_frames, more, returned, trapped, from_events, frame_count,
  had_failures, step, run, drain, drain_frame, attach, push, on_call, on_return, parse_fn_call,
  event_kind, scval_as_symbol_str, scval_as_contract, unwrap_args_payload,
}
use soroban_fork.Trace.Count.{calls, frame_count-from_events}
use soroban_fork.Trace.Rollback.{AllMarked, any_rolled_back, had_failures-from_events}
use soroban_fork.Trace.Emit.{
  emit, emit_spine, append_frames, trapped_spine, Header, Spine, AllClosed, IsCall, closed, nil,
  cons, fn_call, fn_return, packs_back,
}
use soroban_fork.Trace.RoundTrip.{from_events-emit}
use soroban_fork.Render.{
  Texts, line_end, abbreviate_strkey, render_scval, render_args, render_args_later, indent,
}
use soroban_fork.Trace.Display.{
  display, render_frame, render_frames, call_line, result_line, rolled_back_mark,
}
use soroban_fork.Trace.Log.{log, display-from_events}
use soroban_fork.Prelude.Decimal.{decimal}
use soroban_fork.Trace.Caught.{caught_trap, from_events-caught_trap}

abbrev c1 : Bytes
c1 =
    1 ∷ 1 ∷ 1 ∷ 1 ∷ 1 ∷ 1 ∷ 1 ∷ 1 ∷ 1 ∷ 1 ∷ 1 ∷ 1 ∷ 1 ∷ 1 ∷ 1 ∷ 1 ∷ 1 ∷ 1 ∷ 1 ∷ 1 ∷ 1 ∷ 1 ∷ 1 ∷ 1
    ∷ 1 ∷ 1 ∷ 1 ∷ 1 ∷ 1 ∷ 1 ∷ 1 ∷ 1 ∷ []

abbrev deposit : Header
deposit = record { contract = c1; function = codes "deposit"; args = u32 100 ∷ []; failed = false }

abbrev transfer : Header
transfer = record {
  contract = c1;
  function = codes "transfer";
  args = u32 1 ∷ u32 2 ∷ [];
  failed = false;
}

deposit-IsCall : IsCall c1 (codes "deposit") (u32 100 ∷ [])
unfolding from_utf8 packs_back
deposit-IsCall = record { contract_id = refl; function_name = refl; plain_args = refl }

transfer-IsCall : IsCall c1 (codes "transfer") (u32 1 ∷ u32 2 ∷ [])
unfolding from_utf8 packs_back
transfer-IsCall = record { contract_id = refl; function_name = refl; plain_args = refl }

abbrev transfers : Frames
transfers =
    more (frame c1 (codes "transfer") (u32 1 ∷ u32 2 ∷ []) (returned void) false no_frames)
      no_frames

transfers-AllClosed : AllClosed transfers
transfers-AllClosed = cons (closed void false transfer-IsCall nil) nil

abbrev stream : List HostEvent
stream =
    fn_call c1 (codes "deposit") (u32 100 ∷ []) false
    ∷ fn_call c1 (codes "transfer") (u32 1 ∷ u32 2 ∷ []) false
    ∷ fn_return (codes "transfer") void false
    ∷ fn_return (codes "deposit") (u32 7) true
    ∷ fn_return (codes "lonely") void false
    ∷ []

-- sibling calls, nesting and an orphan return
stream_frames : frame_count (from_events stream) ≡ 2
unfolding from_events run step drain drain_frame attach push on_call on_return parse_fn_call
    event_kind scval_as_symbol_str scval_as_contract unwrap_args_payload frame_count fn_call
    fn_return from_utf8 bytes_eq
stream_frames = refl

frame_count-from_events_example : frame_count (from_events stream) ≡ calls stream
frame_count-from_events_example = frame_count-from_events stream

had_failures-from_events_example :
    AllMarked (from_events stream)
    × (had_failures (from_events stream) ≡ any_rolled_back (from_events stream))
had_failures-from_events_example = had_failures-from_events stream

abbrev spine : Spine
spine = (deposit, transfers) ∷ (transfer, no_frames) ∷ []

from_events-emit_example :
    from_events (emit transfers ++ emit_spine spine) ≡ append_frames transfers (trapped_spine spine)
from_events-emit_example =
    from_events-emit transfers spine transfers-AllClosed
      (deposit-IsCall, transfers-AllClosed, (transfer-IsCall, nil, tt))

from_events-caught_trap_example :
    from_events (caught_trap deposit transfer (u32 7))
    ≡ more
        (frame c1 (codes "deposit") (u32 100 ∷ []) trapped true (
          more
            (frame c1 (codes "transfer") (u32 1 ∷ u32 2 ∷ []) (returned (u32 7)) false no_frames)
            no_frames))
        no_frames
from_events-caught_trap_example =
    from_events-caught_trap deposit transfer (u32 7) deposit-IsCall transfer-IsCall

-- The strkey of a contract is a long text here.
abbrev texts : Texts
texts = record {
  contract_strkey = λ id. codes "CABCDEFGHIJKLMNOP";
  account_strkey = λ key. codes "GABCDEFGHIJKLMNOP";
  debug = λ v. codes "?";
  debug_address = λ a. codes "?";
}

abbrev deposits : Frames
deposits =
    more (frame c1 (codes "deposit") (u32 100 ∷ []) (returned (u32 7)) true transfers) no_frames

deposits-AllClosed : AllClosed deposits
deposits-AllClosed = cons (closed (u32 7) true deposit-IsCall transfers-AllClosed) nil

display-from_events_example :
    display texts (from_events (emit deposits))
    ≡ codes "[TRACE]" ++ (line_end ++ log texts 1 (emit deposits))
display-from_events_example =
    display-from_events texts
      (frame c1 (codes "deposit") (u32 100 ∷ []) (returned (u32 7)) true transfers) no_frames
      deposits-AllClosed

-- '…' and '←' are written as bytes.
deposits_shown :
    display texts deposits
    ≡ codes "[TRACE]\n  [CABC"
      ++ (0xe2 ∷ 0x80 ∷ 0xa6 ∷ []
          ++ (codes "MNOP] deposit(100) [rolled back]\n    [CABC"
              ++ (0xe2 ∷ 0x80 ∷ 0xa6 ∷ []
                  ++ (codes "MNOP] transfer(1, 2)\n      "
                      ++ (0xe2 ∷ 0x86 ∷ 0x90 ∷ []
                          ++ (codes " ()\n    " ++ (0xe2 ∷ 0x86 ∷ 0x90 ∷ [] ++ codes " 7\n")))))))
unfolding display render_frame render_frames call_line result_line rolled_back_mark
    abbreviate_strkey render_scval render_args render_args_later indent decimal
deposits_shown = refl
