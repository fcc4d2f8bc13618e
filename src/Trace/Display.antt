-- ===== src/Trace/Display.antt =====
-- The Display of a trace in src/trace.rs: a line for each call and a line for its result, indented by their depth.
use soroban_fork.Prelude.{ℕ, suc, Bool, true, false, List, ◌∷◌, [], ◌++◌, codes}
use soroban_fork.Xdr.{Bytes, ScVal}
use soroban_fork.Render.{
  Texts, abbreviate_strkey, render_scval, render_args, indent, line_end, left_arrow,
}
use soroban_fork.Trace.{TraceResult, returned, trapped, TraceFrame, frame, Frames, no_frames, more}

unfoldable pub rolled_back_mark : Bool → Bytes
rolled_back_mark true = codes " [rolled back]"
rolled_back_mark false = []

module _ (texts : Texts) where
  -- The first line of a frame.
  unfoldable pub call_line : ℕ → Bytes → Bytes → List ScVal → Bool → Bytes
  unfolding rolled_back_mark
  call_line depth contract function args rolled_back =
      indent depth
      ++ (codes "["
          ++ (abbreviate_strkey (texts.contract_strkey contract)
              ++ (codes "] "
                  ++ (function
                      ++ (codes "("
                          ++ (render_args texts args
                              ++ (codes ")" ++ (rolled_back_mark rolled_back ++ line_end))))))))

  -- The last line of a frame.
  unfoldable pub result_line : ℕ → TraceResult → Bytes
  result_line depth (returned v) =
      indent depth ++ (left_arrow ++ (codes " " ++ (render_scval texts v ++ line_end)))
  result_line depth trapped =
      indent depth ++ (left_arrow ++ (codes " TRAPPED (no fn_return)" ++ line_end))

  unfoldable mutual
    pub render_frame : TraceFrame → ℕ → Bytes
    render_frame (frame contract function args result rolled_back children) depth =
        call_line depth contract function args rolled_back
        ++ (render_frames children (suc depth) ++ result_line (suc depth) result)

    -- The loop over the frames.
    pub render_frames : Frames → ℕ → Bytes
    render_frames no_frames depth = []
    render_frames (more f fs) depth = render_frame f depth ++ render_frames fs depth

  -- `—` is three bytes of UTF-8.
  unfoldable pub display : Frames → Bytes
  display no_frames =
      codes "[TRACE] (empty "
      ++ (0xe2 ∷ 0x80 ∷ 0x94 ∷ []
          ++ (codes " was tracing(true) set on ForkConfig before invoke?)" ++ line_end))
  display (more f fs) = codes "[TRACE]" ++ (line_end ++ render_frames (more f fs) 1)
