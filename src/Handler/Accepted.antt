-- ===== src/Handler/Accepted.antt =====
-- cmd/inspector: the handlers on a profile that `Validate` accepts.
use placitum_counter.Prelude.{
  All, All-imp, Bool, Bool-cases, List, String, fail_if->>-IsOk, false, inl, inr, ok, pos, some,
  subst, sym, true, ℕ, ℤ, ◌&&◌, ◌==◌, ◌∙◌, ◌≡◌, ◌≢◌, ◌≤ℤ◌,
}
use placitum_counter.Prelude.Float.{Float64}
use placitum_counter.Protocol.{Request, verdict_allow}
use placitum_counter.Protocol.Replies.{Reply, marshal, score_out}
use placitum_counter.Config.Types.{Profile, Counters}
use placitum_counter.Config.Validate.Profiles.{validate}
use placitum_counter.Config.Validate.Sound.{IsValidJudge-ScoreInRange, validate-IsValidProfile}
use placitum_counter.Decide.{
  Decision, LevelLookup, judge_request, judge_frame, frame_deny_response_of,
}
use placitum_counter.Decide.Observe.{ScoreInRange}
use placitum_counter.Measure.{Input, Value, Fired, run}
use placitum_counter.Measure.Total.{IsMeasured, run_total}
use placitum_counter.Handler.{scored_of, would_scaled, reply_to, judge_reply}
use placitum_counter.Handler.Frame.{measured_reason, frame_reply}
use placitum_counter.Handler.Replies.{
  Carries, judge_reply-Carries, judge-score-le, reply_to-Carries, reply-unchanged, scored_of-bounds,
  would_scaled-verdict,
}

measured_reason-Carries :
    (d : Decision) (r : Reply) (verdict : String)
    → Carries r verdict
    → Carries (measured_reason d r) verdict
unfolding measured_reason marshal
measured_reason-Carries d r verdict h =
    let fine = (fail_if->>-IsOk (score_out r.score) "%w: %d" (ok r) h.1).0 in
    elim (Bool-cases (d.verdict == verdict_allow && d.code == "")) [
      | inl bare ↦ rw (bare, fine) (h.0, tt)
      | inr coded ↦ rw coded h
    ]

module _ {F : Type 0} ⦃fl : Float64 F⦄ where
  frame_reply-Carries :
      (p : Profile F) (lookup : LevelLookup F) (req : Request) (percent : ℤ)
      → All ScoreInRange p.frame.judge
      → Carries (frame_reply p lookup req percent).0 (judge_frame p lookup).0.verdict
  unfolding frame_reply judge_frame
  frame_reply-Carries p lookup req percent g =
      let judged = (judge_frame p lookup).0 in
      let low : judged.score ≤ℤ pos 100 =
        judge-score-le p.frame.judge (frame_deny_response_of p) p.mode lookup g in
      let scored = scored_of fl judged percent in
      let d = would_scaled fl judged percent in
      let same = would_scaled-verdict fl judged percent in
      reply-unchanged (measured_reason d (reply_to req d scored)) _ judged.verdict (
        measured_reason-Carries d (reply_to req d scored) judged.verdict (
          subst (λ v. Carries (reply_to req d scored) v) same
            (reply_to-Carries req d scored
              (λ e. scored_of-bounds fl judged percent low (sym same ∙ e)))))

  -- A profile that `Validate` accepts, and that is not off, runs: whatever the levels are and
  -- whatever percentage is asked for, the replies to a request and to a frame carry the verdict that was
  -- judged and `Marshal` accepts them, and `Run` measures every response and every frame without a
  -- panic.
  pub accepted_profile_runs :
      (compiles : String → Bool) (find_all : String → List ℕ → ℕ) (p q : Profile F)
      → p.mode ≢ "off"
      → validate compiles p ≡ ok q
      → ((lookup : LevelLookup F) (req : Request) (percent fill : ℤ)
          → Carries (judge_reply q lookup req percent fill).0 (judge_request q lookup).0.verdict)
        × ((lookup : LevelLookup F) (req : Request) (percent : ℤ)
            → Carries (frame_reply q lookup req percent).0 (judge_frame q lookup).0.verdict)
        × ((counters : Counters F) (input : Input)
            → (out : List (Value F) × List (Fired F)) × (run find_all q.response.measure counters
                  input
                ≡ some out)
              × IsMeasured find_all input q.response.measure out)
        × ((counters : Counters F) (input : Input)
            → (out : List (Value F) × List (Fired F)) × (run find_all q.frame.measure counters input
                ≡ some out)
              × IsMeasured find_all input q.frame.measure out)
  accepted_profile_runs compiles find_all p q on h =
      let v = validate-IsValidProfile compiles p q on h in
      (
        λ lookup req percent fill.
            judge_reply-Carries q lookup req percent fill
              (All-imp _ _ (IsValidJudge-ScoreInRange false) q.request.judge v.request),
        λ lookup req percent.
            frame_reply-Carries q lookup req percent
              (All-imp _ _ (IsValidJudge-ScoreInRange true) q.frame.judge v.frame),
        λ counters input. run_total find_all q.response.measure counters input v.response_measure,
        λ counters input. run_total find_all q.frame.measure counters input v.frame_measure,
      )
