-- ===== src/Handler.antt =====
-- cmd/inspector/handler.go, `handler.judge` from the decision to the reply, and `effective`. The
-- store, the buckets and the log stand before and after this part.
use placitum_counter.Prelude.{
  List, Result, String, err, false, if◌then◌else◌, is_empty, ok, some, ℤ, ◌++◌, ◌==◌,
}
use placitum_counter.Prelude.Float.{Float64}
use placitum_counter.Protocol.{Request, verdict_score, verdict_deny}
use placitum_counter.Protocol.Replies.{Reply, new_reply, error_reply, with_score}
use placitum_counter.Config.Types.{Profile}
use placitum_counter.Decide.{Decision, LevelLookup, RuleAudit, judge_request}
use placitum_counter.Decide.Scale.{scale_score}
use placitum_counter.Queue.{reason_queue_limit}
use placitum_counter.Decide.Fire.{Fired, fire, fire_overload}
pub mod Env
pub mod Inputs
pub mod Judge
pub mod Measured
pub mod Framed
pub mod Dispatch
pub mod Sent
pub mod Rids
pub mod Answers
pub mod Receipt
pub mod Lookups
pub mod Frame
pub mod Replies
pub mod Accepted

abbrev pub code_internal_error : String
code_internal_error = "COUNTER_INTERNAL_ERROR"

-- `effective`
unfoldable pub effective : Decision → ℤ → Decision
effective d scored = if d.verdict == verdict_score then record d { score = scored } else d

-- The reply's error in place of a score that `WithScore` refuses.
abbrev pub or_internal : Request → Result Reply → Reply
or_internal req (ok r) = r
or_internal req (err e) = error_reply req code_internal_error

abbrev pub with_code : String → Reply → Reply
with_code code r =
    if code == "" then r else record r { reason = some (record { code = code; cls = "" }) }

-- From `scored` to the `response` of the reply.
unfoldable pub reply_to : Request → Decision → ℤ → Reply
unfolding new_reply with_score error_reply
reply_to req d scored =
    let plain = with_code d.code (new_reply req d.verdict) in
    let r =
      if d.verdict == verdict_score then or_internal req (with_score scored plain) else plain in
    if d.verdict == verdict_deny then record r { response = some d.deny_response } else r

module _ {F : Type 0} (fl : Float64 F) where
  -- `scored`
  unfoldable pub scored_of : Decision → ℤ → ℤ
  unfolding scale_score
  scored_of d percent =
      if d.verdict == verdict_score then scale_score fl d.score percent else d.score

  unfoldable pub would_scaled : Decision → ℤ → Decision
  unfolding scale_score
  would_scaled d percent =
      if d.would_verdict == verdict_score
      then record d { would_score = scale_score fl d.would_score percent }
      else d

module _ {F : Type 0} ⦃fl : Float64 F⦄ where
  -- `Fire`, and what `FireOverload` adds to it.
  unfoldable pub fired_by : Profile F → LevelLookup F → Decision → ℤ → String → Fired F
  unfolding fire fire_overload
  fired_by p lookup d fill addr =
      let fired : Fired F = fire p.request.outcomes d addr (some lookup) in
      let more : Fired F = fire_overload p.request.outcomes fill false addr reason_queue_limit in
      record fired {
        actions = fired.actions ++ more.actions;
        bans = fired.bans ++ more.bans;
        names = fired.names ++ more.names;
      }

  -- The reply of `handler.judge`, with what is to be published and recorded.
  unfoldable pub judge_reply :
      Profile F → LevelLookup F → Request → ℤ → ℤ → Reply × Fired F × List (RuleAudit F)
  unfolding judge_request scored_of would_scaled reply_to effective fired_by
  judge_reply p lookup req percent fill =
      let (judged, rows) = judge_request p lookup in
      let scored = scored_of fl judged percent in
      let d = would_scaled fl judged percent in
      let fired = fired_by p lookup (effective d scored) fill req.client_ip in
      let r = reply_to req d scored in
      (if is_empty fired.actions then r else record r { actions = fired.actions }, fired, rows)
