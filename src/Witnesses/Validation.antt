-- ===== src/Witnesses/Validation.antt =====
-- The theorems on accepted configurations at concrete inputs.
use placitum_counter.Prelude.{
  All, IsOk, List, [], any, ap, arith, contains, each, each_map, false, inl, is_digit, is_lower,
  is_upper, map_get, none, ok, pos, refl, select, some, sym, text_eq, true, ℤ, ◌&&◌, ◌==◌, ◌∷◌, ◌≡◌,
  ◌≢◌,
}
use mathlib.Core.Bool.{false≢true}
use placitum_counter.Config.Types.{MeasureRule, Outcome}
use placitum_counter.Config.Counters.{split_from, user_from, has_axis, note_axes}
use placitum_counter.Config.Counters.Axes.{belongs, contains-note_axes}
use placitum_counter.Config.Counters.Valid.{
  IsValidCounter, validate-IsValidCounter, validate-user_from,
}
use placitum_counter.Config.Counters.Valid
use placitum_counter.Config.Validate.Profiles
use placitum_counter.Config.Names.{name_re}
use placitum_counter.Config.Names
use placitum_counter.Config.Validate.Rules
use placitum_counter.Config.Validate.Outcomes
use placitum_counter.Config.Validate.Asks
use placitum_counter.Config.Validate.Against
use placitum_counter.Config.Outcome
use placitum_counter.Decide.Prior
use placitum_counter.Overload
use placitum_counter.Config.Counters
use placitum_counter.Config.Validate.Sound.{IsValidProfile, validate-IsValidProfile}
use placitum_counter.Config.Validate.Against.{validate_against}
use placitum_counter.Config.Validate.Owner.{OneOwner, validate_against-OneOwner}
use placitum_counter.Config.Validate.Outcomes.{validate_outcome}
use placitum_counter.Protocol.{Request}
use placitum_counter.Config.Types.{Counters}
use placitum_counter.Decide.{LevelLookup, judge_request, judge_frame}
use placitum_counter.Decide.Fire.{nothing, fire_overload}
use placitum_counter.Decide.Fire.Quiet.{Waits, fire_overload-quiet}
use placitum_counter.Measure.{Input, Value, Fired, run}
use placitum_counter.Measure.Total.{IsMeasured}
use placitum_counter.Handler.{judge_reply}
use placitum_counter.Handler.Frame.{frame_reply}
use placitum_counter.Handler.Replies.{Carries}
use placitum_counter.Handler.Accepted.{accepted_profile_runs}
use placitum_counter.Buckets.{enabled}
use placitum_counter.Config.Counters.{kind}
use placitum_counter.Config.Counters.Tiers.{tiers, tiers-enabled}
use placitum_counter.Witnesses.Data.{
  int_float, profile, compiled_profile, overload_outcome, login, counters,
}

counters_accepted : IsOk (Valid.validate counters)
unfolding Valid.validate each Valid.validate_counter name_re is_upper is_lower Valid.validate_tier
    contains user_from map_get Valid.validate_subjects split_from text_eq
counters_accepted = tt

validate-IsValidCounter_example : IsValidCounter counters "login" login
validate-IsValidCounter_example =
    validate-IsValidCounter counters "login" login counters_accepted (unfold map_get in refl)

validate-user_from_example : split_from (user_from counters "login") ≢ none
validate-user_from_example =
    validate-user_from counters "login" login counters_accepted (unfold map_get in refl)
      (unfold map_get in refl)

contains-note_axes_example :
    contains (note_axes counters "noted" "ip") "ip"
    ≡ (belongs "ip" "ip" && has_axis counters "noted" "ip")
contains-note_axes_example = contains-note_axes counters "noted" "ip" "ip"

profile_accepted : Profiles.validate (λ re. true) profile ≡ ok compiled_profile
unfolding Profiles.validate Profiles.validate_phases Profiles.validate_judges Profiles.denies each
    each_map Rules.validate_prior Rules.check_verb Rules.check_axis Rules.check_note_counter
    Rules.validate_judge Rules.check_action Rules.check_source Rules.check_measure
    Rules.check_measure_axis Outcomes.check_on_verdict Overload.check Rules.check_response_selector
    Rules.validate_measure Rules.weight Prior.accepts Names.check_code Names.name_re
    Outcomes.validate_outcome Outcomes.check_on Outcomes.check_on_score Outcomes.check_on_overload
    Outcomes.check_list Outcomes.check_ask_section Outcome.asks Outcome.subject contains is_upper
    is_lower is_digit any Names.code_re
profile_accepted = refl

profile_is_on : profile.mode ≢ "off"
profile_is_on e = false≢true (ap (λ s. s == "enforce") (sym e))

validate-IsValidProfile_example : IsValidProfile (λ re. true) compiled_profile
validate-IsValidProfile_example =
    validate-IsValidProfile (λ re. true) profile compiled_profile profile_is_on profile_accepted

profile_fits : IsOk (validate_against counters profile)
unfolding validate_against Against.phases_against each Against.judge_against has_axis map_get
    Against.measure_against Counters.fill Against.outcome_against Outcome.on_bucket
    Against.prior_against Prior.accepts contains note_axes select
profile_fits = tt

validate_against-OneOwner_example :
    let Owned = λ (m : MeasureRule ℤ).
      OneOwner counters profile.prior m
      × All (λ axis. has_axis counters m.counter axis ≡ true) m.axes in
    All Owned profile.response.measure × All Owned profile.frame.measure
validate_against-OneOwner_example =
    validate_against-OneOwner counters profile profile_is_on profile_fits

outcome_accepted : IsOk (validate_outcome "request" overload_outcome)
unfolding validate_outcome Outcomes.check_on Outcomes.check_on_overload Overload.check
    Names.check_code Outcome.asks Outcomes.check_list name_re is_upper is_lower
outcome_accepted = tt

abbrev asking_outcome : Outcome
asking_outcome = record overload_outcome {
  list = "";
  ttl = pos 0;
  verb = "note";
  to = "waf";
  apply = "ip";
  value = some (pos 20);
}

ask_accepted : IsOk (validate_outcome "request" asking_outcome)
unfolding validate_outcome Outcomes.check_on Outcomes.check_on_overload Overload.check
    Names.check_code Outcome.asks Outcomes.check_ask_section Asks.validate_outcome_ask
    Asks.check_apply Asks.check_phase_ask Asks.check_values Asks.check_score_verb Asks.check_counter
    Asks.check_mutate Asks.check_mark Asks.check_objects Outcome.audit_verb Outcome.control_verb
    Outcome.record_verb Outcome.axis map_get contains
ask_accepted = tt

both_wait :
    All
      (λ o. IsOk (validate_outcome "request" o) × Waits (pos 24) o)
      (overload_outcome ∷ asking_outcome ∷ [])
both_wait =
    let first : IsOk (validate_outcome "request" overload_outcome)
        × Waits (pos 24) overload_outcome =
      (outcome_accepted, inl (omega arith)) in
    let second : IsOk (validate_outcome "request" asking_outcome) × Waits (pos 24) asking_outcome =
      (ask_accepted, inl (omega arith)) in
    let rest : All (λ o. IsOk (validate_outcome "request" o) × Waits (pos 24) o)
        (asking_outcome ∷ []) =
      (second, tt) in
    (first, rest)

fire_overload-quiet_example :
    fire_overload {F = ℤ} (overload_outcome ∷ asking_outcome ∷ []) (pos 24) false "10.0.0.1" ""
    ≡ nothing
fire_overload-quiet_example =
    fire_overload-quiet (overload_outcome ∷ asking_outcome ∷ []) (pos 24) "10.0.0.1" "" both_wait

accepted_profile_runs_example :
    ((lookup : LevelLookup ℤ) (req : Request) (percent fill : ℤ)
      → Carries
          (judge_reply compiled_profile lookup req percent fill).0
          (judge_request compiled_profile lookup).0.verdict)
    × ((lookup : LevelLookup ℤ) (req : Request) (percent : ℤ)
        → Carries
            (frame_reply compiled_profile lookup req percent).0
            (judge_frame compiled_profile lookup).0.verdict)
    × ((counters : Counters ℤ) (input : Input)
        → (out : List (Value ℤ) × List (Fired ℤ)) × (run
              (λ re body. 2)
              compiled_profile.response.measure
              counters
              input
            ≡ some out)
          × IsMeasured (λ re body. 2) input compiled_profile.response.measure out)
    × ((counters : Counters ℤ) (input : Input)
        → (out : List (Value ℤ) × List (Fired ℤ)) × (run
              (λ re body. 2)
              compiled_profile.frame.measure
              counters
              input
            ≡ some out)
          × IsMeasured (λ re body. 2) input compiled_profile.frame.measure out)
accepted_profile_runs_example =
    accepted_profile_runs (λ re. true) (λ re body. 2) profile compiled_profile profile_is_on
      profile_accepted

tiers-enabled_example : enabled (record { max = pos 100; loss = pos 5 }) ≡ true
tiers-enabled_example =
    tiers-enabled counters "login:ip" (record { max = pos 100; loss = pos 5 }) counters_accepted
      (unfold tiers map_get kind in refl) (λ e. refl) (λ e. refl)
