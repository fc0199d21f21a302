-- ===== src/Config/Validate/Against.antt =====
-- internal/config/profile.go: `ValidateAgainst`, the check of a profile against the counters.
use placitum_counter.Prelude.{
  Bool, Option, Result, each, fail_if, false, if◌then◌else◌, is_empty, none, not, ok, some, true,
  ◌&&◌, ◌==◌, ◌>>◌,
}
use placitum_counter.Config.Types.{
  JudgeRule, MeasureRule, Outcome, OutcomeIf, PriorRule, Profile, Counters,
}
use placitum_counter.Config.Outcome.{on_bucket}
use placitum_counter.Config.Counters.{has, has_axis, fill, note_axes}
use placitum_counter.Decide.Prior.{accepts}

module _ {F : Type 0} (c : Counters F) where
  unfoldable pub judge_against : JudgeRule F → Result (Unit {0})
  judge_against r =
      fail_if (not (has_axis c r.counter r.axis))
        "judge[%d]: counter %q has no axis %q declared in %s/%s"

  unfoldable pub measure_against : MeasureRule F → Result (Unit {0})
  measure_against m = do
    fail_if (not (has m.counter c.counters)) "measure[%d]: counter %q is not declared in %s/%s"
    fail_if (not (fill c m.counter == "measure"))
        "measure[%d]: counter %q is fill: %s: neighbours fill it, measure would be a second owner"
    each
        (λ axis. fail_if (not (has_axis c m.counter axis)) "measure[%d]: counter %q has no axis %q")
        m.axes

  -- `continue` where the outcome is on no bucket.
  abbrev bucket_against : Bool → Option OutcomeIf → Result (Unit {0})
  bucket_against true (some b) =
      fail_if (not (has_axis c b.counter b.axis))
        "outcomes[%d]: counter %q has no axis %q declared in %s/%s"
  bucket_against true none = ok tt
  bucket_against false b = ok tt

  unfoldable pub outcome_against : Outcome → Result (Unit {0})
  outcome_against o = bucket_against (on_bucket o) o.bucket

  unfoldable pub prior_against : PriorRule → Result (Unit {0})
  prior_against r =
      if accepts r "note"
      then (do
        fail_if (not (has r.counter c.counters))
            "trigger.prior[%d]: counter %q is not declared in %s/%s"
        fail_if (not (fill c r.counter == "note"))
            "trigger.prior[%d]: counter %q is fill: %s: measure fills it, notes would be a second owner"
        fail_if
            (is_empty (note_axes c r.counter "ip")
              && is_empty (note_axes c r.counter "asn")
              && is_empty (note_axes c r.counter "session"))
            "trigger.prior[%d]: counter %q has no axis the channel can reach")
      else ok tt

  unfoldable pub phases_against : Profile F → Result (Unit {0})
  phases_against p = do
    each judge_against p.request.judge
    each measure_against p.response.measure
    each outcome_against p.request.outcomes
    each judge_against p.frame.judge
    each measure_against p.frame.measure
    each outcome_against p.frame.outcomes
    each prior_against p.prior

  -- `ValidateAgainst`
  unfoldable pub validate_against : Profile F → Result (Unit {0})
  validate_against p = if p.mode == "off" then ok tt else phases_against p
