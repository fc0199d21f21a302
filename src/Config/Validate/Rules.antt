-- ===== src/Config/Validate/Rules.antt =====
-- internal/config/profile.go: `validatePrior`, `validateJudge` and `validateMeasure`.
use placitum_counter.Prelude.{
  Bool, Result, String, beq_ℤ, contains, each, err, fail_if, if◌then◌else◌, is_empty, ltb_ℤ, none,
  not, ok, pos, some, ℤ, ◌&&◌, ◌==◌, ◌>>=◌, ◌>>◌, ◌||◌,
}
use placitum_counter.Prelude.Float.{Float64}
use placitum_counter.Config.Types.{JudgeRule, MeasureRule, Match, PriorRule}
use placitum_counter.Config.Names.{name_re, method_re, check_code}
use placitum_counter.Config.Counters.{known_axes}
use placitum_counter.Decide.Prior.{accepts}

-- The `switch verb` of `validatePrior`.
unfoldable pub check_verb : String → Result (Unit {0})
check_verb verb =
    if verb == "threshold" || verb == "skip" || verb == "note"
    then ok tt
    else if verb == "challenge" || verb == "reauth"
    then err "trigger.prior[%d]: %q is not ours to apply"
    else err "trigger.prior[%d]: unknown verb %q"

-- The `switch axis` of `validatePrior`.
unfoldable pub check_axis : PriorRule → String → Result (Unit {0})
check_axis r axis =
    if axis == "request"
    then fail_if (not (accepts r "threshold") && not (accepts r "skip"))
        "trigger.prior[%d]: axis %q never hits a bucket of %v"
    else if axis == "ip" || axis == "asn" || axis == "session"
    then fail_if (not (accepts r "note")) "trigger.prior[%d]: axis %q never occurs with %v"
    else err "trigger.prior[%d]: unknown axis %q"

unfoldable pub check_note_counter : PriorRule → Result (Unit {0})
check_note_counter r =
    if accepts r "note"
    then (do
      fail_if (r.counter == "") "trigger.prior[%d]: counter is required for %q"
      fail_if (not (name_re r.counter)) "trigger.prior[%d]: bad counter name %q")
    else fail_if (not (r.counter == "")) "trigger.prior[%d]: counter is only for %q"

-- `validatePrior`
unfoldable pub validate_prior : PriorRule → Result (Unit {0})
validate_prior r = do
  fail_if (r.from == "") "trigger.prior[%d]: from is empty"
  fail_if (is_empty r.accept) "trigger.prior[%d]: accept is required"
  each check_verb r.accept
  each (check_axis r) r.apply
  check_note_counter r
  fail_if (r.from == "*") "trigger.prior[%d]: %v need a named sender: they can weaken"

-- The `switch r.Action` of `validateJudge`.
unfoldable pub check_action : String → ℤ → Result (Unit {0})
check_action action score =
    if action == "deny"
    then fail_if (not (beq_ℤ score (pos 0))) "%s: score is only for action: score"
    else if action == "score"
    then fail_if (ltb_ℤ score (pos 1) || ltb_ℤ (pos 100) score)
        "%s: score must be within 1..100, got %d"
    else err "%s: action must be %s or %s, got %q"

-- The selectors of a frame rule.
unfoldable pub check_frame_selector : Match → Result (Unit {0})
check_frame_selector m = do
  fail_if (not (is_empty m.status && is_empty m.content_type && is_empty m.methods))
      "%s: if.status, if.content_type and if.methods are not frame selectors"
  each (λ d. fail_if (not (d == "c2s" || d == "s2c")) "%s: if.direction must be %s or %s, got %q")
      m.direction
  each
      (λ op.
        fail_if (not (op == "text" || op == "binary" || op == "continuation"))
          "%s: if.opcode must be %s, %s or %s, got %q")
      m.opcode

-- The selectors of a response rule.
unfoldable pub check_response_selector : Match → Result (Unit {0})
check_response_selector m = do
  fail_if (not (is_empty m.direction && is_empty m.opcode))
      "%s: if.direction and if.opcode are frame selectors"
  each (λ meth. fail_if (not (method_re meth)) "%s: if.methods: %q is not an upper-case method")
      m.methods
  each
      (λ st.
        fail_if (ltb_ℤ st (pos 100) || ltb_ℤ (pos 599) st) "%s: if.status %d is not an HTTP status")
      m.status

unfoldable pub check_measure_axis : Bool → String → Result (Unit {0})
check_measure_axis frame axis = do
  fail_if (not (contains known_axes axis)) "%s: axis must be one of %s, got %q"
  fail_if (axis == "conn" && not frame) "%s: axis %s is only for the frame phase"

module _ {F : Type 0} ⦃fl : Float64 F⦄ where
  -- `MeasureRule.Weight`
  unfoldable pub weight : MeasureRule F → F
  weight m = elim m.per [ none ↦ fl.of_int (pos 1) | some w ↦ w ]

  -- `validateJudge`
  unfoldable pub validate_judge : Bool → JudgeRule F → Result (Unit {0})
  validate_judge frame r = do
    fail_if (r.counter == "") "%s: counter is required"
    fail_if (not (contains known_axes r.axis)) "%s: axis must be one of %s, got %q"
    fail_if (r.axis == "conn" && not frame) "%s: axis %s is only for the frame phase"
    fail_if (fl.lt r.at (fl.of_int (pos 0)) || fl.lt (fl.of_int (pos 100)) r.at)
        "%s: at %v is out of 0..100 percent"
    check_action r.action r.score
    check_code r.code

  -- The rest of `validateMeasure`, behind the `switch m.Source`.
  unfoldable pub check_measure : Bool → MeasureRule F → Result (Unit {0})
  unfolding weight
  check_measure frame m = do
    fail_if (fl.eq (weight m) (fl.of_int (pos 0)))
        "%s: per must not be zero: a rule that adds nothing is written by not writing it"
    each (check_measure_axis frame) m.axes
    if frame then check_frame_selector m.selector else check_response_selector m.selector

-- The first parameter is `regexp.Compile`: whether it accepts the text.
module _ (compiles : String → Bool) {F : Type 0} where
  -- The `switch m.Source`: the rule with its compiled expression.
  unfoldable pub check_source : MeasureRule F → Result (MeasureRule F)
  check_source m =
      if m.source == "const" || m.source == "size_kb" || m.source == "bytes"
      then (if m.regex == "" then ok m else err "%s: regex is only for source: %s")
      else if m.source == "regex_count"
      then (if m.regex == ""
          then err "%s: source %s needs regex"
          else if compiles m.regex
          then ok (record m { re = some m.regex })
          else err "%s: %w")
      else err "%s: source must be %s, %s, %s or %s, got %q"

module _ (compiles : String → Bool) {F : Type 0} ⦃fl : Float64 F⦄ where
  -- `validateMeasure`: the rule with its compiled expression.
  unfoldable pub validate_measure : Bool → MeasureRule F → Result (MeasureRule F)
  validate_measure frame m = do
    fail_if (m.counter == "") "%s: counter is required"
    m' ← check_source compiles m
    check_measure frame m'
    ok m'
