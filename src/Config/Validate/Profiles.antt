-- ===== src/Config/Validate/Profiles.antt =====
-- internal/config/profile.go: `Validate`. It writes the compiled expressions into the measure rules,
-- so the model returns the profile.
use placitum_counter.Prelude.{
  Bool, List, Result, String, any, each, each_map, fail_if, false, if◌then◌else◌, not, ok, true,
  ◌&&◌, ◌==◌, ◌>>=◌, ◌>>◌, ◌||◌,
}
use placitum_counter.Prelude.Float.{Float64}
use placitum_counter.Config.Types.{JudgeRule, Profile}
use placitum_counter.Config.Validate.Outcomes.{validate_outcome}
use placitum_counter.Config.Validate.Rules.{validate_prior, validate_judge, validate_measure}

module _ {F : Type 0} ⦃fl : Float64 F⦄ where
  unfoldable pub denies : List (JudgeRule F) → Bool
  denies rules = any (λ r. r.action == "deny") rules

  -- `validateJudges`
  unfoldable pub validate_judges : Bool → List (JudgeRule F) → String → Result (Unit {0})
  unfolding denies
  validate_judges frame rules deny_response = do
    each (validate_judge frame) rules
    fail_if (denies rules && deny_response == "")
        "%s.deny_response is required when a judge rule is %s"

module _ (compiles : String → Bool) {F : Type 0} ⦃fl : Float64 F⦄ where
  -- The checks behind the test for `mode: off`.
  unfoldable pub validate_phases : Profile F → Result (Profile F)
  validate_phases p = do
    fail_if (not p.request.enabled && not p.response.enabled && not p.frame.enabled)
        "all phases are disabled: the profile would do nothing"
    validate_judges false p.request.judge p.request.deny_response
    validate_judges true p.frame.judge p.frame.deny_response
    response ← each_map (validate_measure compiles false) p.response.measure
    frame ← each_map (validate_measure compiles true) p.frame.measure
    ok (record p {
      response = record p.response { measure = response };
      frame = record p.frame { measure = frame };
    })

  -- `Profile.Validate`
  unfoldable pub validate : Profile F → Result (Profile F)
  validate p = do
    fail_if (not (p.mode == "enforce" || p.mode == "observe" || p.mode == "off"))
        "mode must be enforce, observe or off, got %q"
    each validate_prior p.prior
    each (validate_outcome "request") p.request.outcomes
    each (validate_outcome "frame") p.frame.outcomes
    if p.mode == "off" then ok p else validate_phases p
