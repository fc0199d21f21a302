-- ===== src/Handler/Frame.antt =====
-- cmd/inspector/frame.go, `handler.frame` from the decision to the reply.
use placitum_counter.Prelude.{List, String, if◌then◌else◌, is_empty, some, ℤ, ◌&&◌, ◌==◌}
use placitum_counter.Prelude.Float.{Float64}
use placitum_counter.Protocol.{Request, verdict_allow}
use placitum_counter.Protocol.Replies.{Reply}
use placitum_counter.Config.Types.{Profile}
use placitum_counter.Decide.{Decision, LevelLookup, RuleAudit, judge_frame}
use placitum_counter.Decide.Fire.{Fired, fire}
use placitum_counter.Handler.{scored_of, would_scaled, reply_to, effective}

abbrev pub code_measured : String
code_measured = "COUNTER_MEASURED"

-- An allowed frame without a code was measured.
unfoldable pub measured_reason : Decision → Reply → Reply
measured_reason d r =
    if d.verdict == verdict_allow && d.code == ""
    then record r { reason = some (record { code = code_measured; cls = "" }) }
    else r

module _ {F : Type 0} ⦃fl : Float64 F⦄ where
  -- The reply for a frame that is judged, with what is to be published and recorded.
  unfoldable pub frame_reply :
      Profile F → LevelLookup F → Request → ℤ → Reply × Fired F × List (RuleAudit F)
  unfolding judge_frame scored_of would_scaled reply_to effective measured_reason fire
  frame_reply p lookup req percent =
      let (judged, rows) = judge_frame p lookup in
      let scored = scored_of fl judged percent in
      let d = would_scaled fl judged percent in
      let fired : Fired F =
        fire p.frame.outcomes (effective d scored) req.client_ip (some lookup) in
      let r = measured_reason d (reply_to req d scored) in
      (if is_empty fired.actions then r else record r { actions = fired.actions }, fired, rows)
