-- ===== src/Trace/Caught.antt =====
-- A call that traps while its caller goes on, as with a caught cross-contract failure: the host
-- writes the caller's `fn_return` and none for the callee.
use soroban_fork.Prelude.{◌≡◌, refl, true, false, List, [], ◌∷◌}
use soroban_fork.Xdr.{ScVal}
use soroban_fork.Trace.{
  HostEvent, frame, no_frames, more, returned, trapped, run, from_events, drain, drain_frame,
  attach, push,
}
use soroban_fork.Trace.Emit.{fn_call, fn_return, Header, IsCall}
use soroban_fork.Trace.Steps.{step-fn_call, step-fn_return}

-- The caller enters, the callee enters and traps, the caller returns `v`.
abbrev pub caught_trap : Header → Header → ScVal → List HostEvent
caught_trap caller callee v =
    fn_call caller.contract caller.function caller.args caller.failed
    ∷ fn_call callee.contract callee.function callee.args callee.failed
    ∷ fn_return caller.function v false
    ∷ []

-- The value that the caller returned is read as the callee's, and the caller, which completed, as
-- trapped and rolled back.
pub from_events-caught_trap :
    (caller callee : Header) (v : ScVal)
    → IsCall caller.contract caller.function caller.args
    → IsCall callee.contract callee.function callee.args
    → from_events (caught_trap caller callee v)
      ≡ more
          (frame caller.contract caller.function caller.args trapped true (
            more
              (frame callee.contract callee.function callee.args
                (returned v)
                callee.failed
                no_frames)
              no_frames))
          no_frames
unfolding from_events run drain drain_frame attach push
from_events-caught_trap caller callee v h k =
    rw (step-fn_call _ _ _ caller.failed [] no_frames h)
      (rw (step-fn_call _ _ _ callee.failed _ no_frames k) (rw step-fn_return refl))
