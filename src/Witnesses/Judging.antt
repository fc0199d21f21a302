-- ===== src/Witnesses/Judging.antt =====
-- The theorems on decisions, outcomes, measures and replies at concrete inputs.
use placitum_counter.Prelude.{
  All, List, String, [], any, arith, codes, false, if◌then◌else◌, map, pos, refl, select, some,
  true, ℤ, ◌==◌, ◌∷◌, ◌≡◌, ◌≤ℤ◌, ◌≤◌,
}
use placitum_counter.Protocol.{verdict_allow}
use placitum_counter.Protocol.Replies.{parse}
use placitum_counter.Protocol.Parsed.{parse-IsValidRequest, IsValidRequest}
use placitum_counter.Decide.{Decision, observe, judge, judge_request, row_of, allow}
use placitum_counter.Decide.Taking.{last_deny, best, on_fired}
use placitum_counter.Decide.Verdict.{fires, judge-eq-on_fired}
use placitum_counter.Decide.Observe.{severity, ScoreInRange, judge_observe, judge_mono}
use placitum_counter.Decide.Fire.{fire, fire_overload, fires_overload}
use placitum_counter.Decide.Fire.Selected.{
  sent, selected, level_rows, fire-eq-sent, fire_overload-eq-sent,
}
use placitum_counter.Decide.Prior.{evaluate_prior, clamp_percent, percent_min, percent_max}
use placitum_counter.Decide.Prior.Noted.{IsNoted, evaluate_prior-IsNoted}
use placitum_counter.Decide.Prior.Deliveries.{of_verdicts, is_skip, sum_deltas, all_charges}
use placitum_counter.Decide.Prior.Percent.{evaluate_prior-deliveries}
use placitum_counter.Decide.Scale.{scale_score, scale_score_bounds}
use placitum_counter.Measure.{Input, Value, Fired, run}
use placitum_counter.Measure.Total.{IsMeasured, run_total}
use placitum_counter.Handler.{judge_reply}
use placitum_counter.Handler.Replies.{Carries, judge_reply-Carries}
use placitum_counter.Witnesses.Data.{
  int_float, rules, deny_rule, profile, compiled_rule, counters, low, high, prior_verdict, request,
}

judge-eq-on_fired_example : judge rules "counter_limit" "observe" low ≡ (
  observe "observe" (
      on_fired "counter_limit"
        (last_deny (select (fires low) rules))
        (best (select (fires low) rules))),
  map (λ r. row_of r (low r.counter r.axis)) rules,
)
judge-eq-on_fired_example = judge-eq-on_fired rules "counter_limit" "observe" low

abbrev judged_in : String → Decision
judged_in mode = (judge rules "counter_limit" mode high).0

judge_observe_example :
    ((judged_in "observe").verdict ≡ verdict_allow)
    × ((judged_in "observe").score ≡ pos 0)
    × ((judged_in "observe").deny_response ≡ "")
    × ((judged_in "observe").would_verdict ≡ (
        if (judged_in "enforce").verdict == verdict_allow
        then ""
        else (judged_in "enforce").verdict))
    × ((judged_in "observe").would_score ≡ (
        if (judged_in "enforce").verdict == verdict_allow
        then pos 0
        else (judged_in "enforce").score))
    × ((judged_in "observe").would_code ≡ (
        if (judged_in "enforce").verdict == verdict_allow then "" else (judged_in "enforce").code))
judge_observe_example = judge_observe rules "counter_limit" high

rules-ScoreInRange : All ScoreInRange rules
rules-ScoreInRange =
    let last : ScoreInRange deny_rule × Unit {0} = ((omega arith, omega arith), tt) in
    ((omega arith, omega arith), last)

judge_mono_example :
    severity (judge rules "counter_limit" "enforce" low).0
    ≤ severity (judge rules "counter_limit" "enforce" high).0
judge_mono_example =
    judge_mono rules "counter_limit" low high rules-ScoreInRange (λ counter axis. refl)

judge_reply-Carries_example :
    Carries
      (judge_reply profile high request (pos 150) (pos 10)).0
      (judge_request profile high).0.verdict
judge_reply-Carries_example =
    judge_reply-Carries profile high request (pos 150) (pos 10) rules-ScoreInRange

fire-eq-sent_example :
    let d = record allow { verdict = "score"; score = pos 40; code = "COUNTER_LEVEL" } in
    fire profile.request.outcomes d "10.0.0.1" (some low)
    ≡ sent
        (selected "score" (pos 40) (some low))
        "10.0.0.1"
        "COUNTER_LEVEL"
        (level_rows (some low) profile.request.outcomes)
        profile.request.outcomes
fire-eq-sent_example =
    fire-eq-sent profile.request.outcomes
      (record allow { verdict = "score"; score = pos 40; code = "COUNTER_LEVEL" }) "10.0.0.1"
      (some low)

fire_overload-eq-sent_example :
    fire_overload {F = ℤ} profile.request.outcomes (pos 90) false "10.0.0.1" "COUNTER_QUEUE_LIMIT"
    ≡ sent
        (fires_overload (pos 90) false)
        "10.0.0.1"
        "COUNTER_QUEUE_LIMIT"
        []
        profile.request.outcomes
fire_overload-eq-sent_example =
    fire_overload-eq-sent profile.request.outcomes (pos 90) false "10.0.0.1" "COUNTER_QUEUE_LIMIT"

evaluate_prior-deliveries_example :
    let a = evaluate_prior (prior_verdict ∷ []) (some profile) counters "request" in
    let ds = of_verdicts profile.prior "request" true (prior_verdict ∷ []) in
    (a.skip ≡ any is_skip ds)
    × (a.percent ≡ clamp_percent (sum_deltas (pos 0) ds))
    × (a.notes ≡ all_charges counters ds)
    × (percent_min ≤ℤ a.percent)
    × (a.percent ≤ℤ percent_max)
evaluate_prior-deliveries_example =
    evaluate_prior-deliveries counters (prior_verdict ∷ []) profile "request"

evaluate_prior-IsNoted_example :
    All
      (IsNoted counters profile "request" (prior_verdict ∷ []))
      (evaluate_prior (prior_verdict ∷ []) (some profile) counters "request").notes
evaluate_prior-IsNoted_example =
    evaluate_prior-IsNoted counters profile "request" (prior_verdict ∷ [])

scale_score_bounds_example :
    (pos 0 ≤ℤ scale_score int_float (pos 60) (pos 100))
    × (scale_score int_float (pos 60) (pos 100) ≤ℤ pos 100)
scale_score_bounds_example = scale_score_bounds int_float (pos 60) (pos 100) (omega arith)

abbrev response_input : Input
response_input = record {
  method = "POST";
  status = pos 401;
  frame = false;
  direction = "";
  opcode = "";
  content_type = "text/html";
  body = codes "bad bad";
  body_truncated = false;
  body_size = pos 7;
}

run_total_example :
    (out : List (Value ℤ) × List (Fired ℤ)) × (run
        (λ re body. 2)
        (compiled_rule ∷ [])
        counters
        response_input
      ≡ some out)
    × IsMeasured (λ re body. 2) response_input (compiled_rule ∷ []) out
run_total_example =
    run_total (λ re body. 2) (compiled_rule ∷ []) counters response_input ((λ e. refl), tt)

parse-IsValidRequest_example : IsValidRequest request
parse-IsValidRequest_example = parse-IsValidRequest request (unfold parse in tt)
