-- ===== src/Config/Validate/Sound.antt =====
-- internal/config/profile.go: the profiles that `Validate` accepts.
use placitum_counter.Prelude.{
  >>-IsOk, >>-eq-ok, >>=-eq-ok, All, All-imp, Bool, Bool-cases, IsOk, List, String, ap, arith,
  contains, each, each-IsOk, each_map, each_map-All, eq_iff, fail_if, fail_if->>-IsOk, false,
  if◌then◌else◌, inl, inr, not, not-eq-false, ok, ok_injective, or-eq-false, pos, some, subst, sym,
  true, ℤ, ◌&&◌, ◌==◌, ◌||◌, ◌∙◌, ◌≡◌, ◌≢◌, ◌≤ℤ◌, ◌⊎◌,
}
use placitum_counter.Prelude.Float.{Float64}
use placitum_counter.Config.Types.{JudgeRule, MeasureRule, Profile}
use placitum_counter.Config.Counters.{known_axes}
use placitum_counter.Config.Validate.Rules.{
  validate_prior, validate_judge, check_action, validate_measure, check_source, check_measure,
}
use placitum_counter.Config.Validate.Outcomes.{validate_outcome}
use placitum_counter.Config.Validate.Profiles.{validate, validate_phases, validate_judges}
use placitum_counter.Decide.Observe.{ScoreInRange}

-- The score of an accepted judge rule: none on a deny, 1 to 100 on a score.
abbrev pub IsValidAction : String → ℤ → Type 0
IsValidAction action score =
    ((action ≡ "deny") × (score ≡ pos 0))
    ⊎ ((action ≡ "score") × (pos 1 ≤ℤ score) × (score ≤ℤ pos 100))

check_action-IsValidAction :
    (action : String) (score : ℤ) → IsOk (check_action action score) → IsValidAction action score
unfolding check_action
check_action-IsValidAction action score h =
    ground (arith, eq_iff action "deny", eq_iff action "score")

score_in_range :
    (action : String) (score : ℤ)
    → IsValidAction action score
    → (pos 0 ≤ℤ score) × (score ≤ℤ pos 100)
score_in_range action score (inl (a, e)) = rw e (omega arith, omega arith)
score_in_range action score (inr (a, l, u)) = (omega arith, u)

-- A rule that counts matches has its compiled expression, so `Regexp` is not nil.
abbrev pub IsCompiled : {F : Type 0} → MeasureRule F → Type 0
IsCompiled m = m.source ≡ "regex_count" → m.re ≡ some m.regex

module _ (compiles : String → Bool) {F : Type 0} where
  source-check_source : (m n : MeasureRule F) → check_source compiles m ≡ ok n → n.source ≡ m.source
  unfolding check_source
  source-check_source m n h = ground arith

  check_source_counts :
      (m n : MeasureRule F)
      → m.source ≡ "regex_count"
      → check_source compiles m ≡ ok n
      → n.re ≡ some n.regex
  unfolding check_source
  check_source_counts m n e h =
      let a : (m.source == "const") ≡ false = ap (λ s. s == "const") e in
      let b : (m.source == "size_kb") ≡ false = ap (λ s. s == "size_kb") e in
      let c : (m.source == "bytes") ≡ false = ap (λ s. s == "bytes") e in ground arith

  check_source-IsCompiled : (m n : MeasureRule F) → check_source compiles m ≡ ok n → IsCompiled n
  check_source-IsCompiled m n h e = check_source_counts m n (sym (source-check_source m n h) ∙ e) h

module _ {F : Type 0} ⦃fl : Float64 F⦄ where
  -- The bounds of `at` say what the tests exclude: a NaN passes them.
  pub record IsValidJudge (frame : Bool) (r : JudgeRule F) : Type 0 where
    pub counted : r.counter == "" ≡ false
    pub known : contains known_axes r.axis ≡ true
    pub conn : (r.axis == "conn" && not frame) ≡ false
    pub at_min : fl.lt r.at (fl.of_int (pos 0)) ≡ false
    pub at_max : fl.lt (fl.of_int (pos 100)) r.at ≡ false
    pub action : IsValidAction r.action r.score

  validate_judge-IsValidJudge :
      (frame : Bool) (r : JudgeRule F) → IsOk (validate_judge frame r) → IsValidJudge frame r
  unfolding validate_judge
  validate_judge-IsValidJudge frame r h =
      let a = fail_if->>-IsOk _ _ _ h in
      let b = fail_if->>-IsOk _ _ _ a.1 in
      let c = fail_if->>-IsOk _ _ _ b.1 in
      let d = fail_if->>-IsOk _ _ _ c.1 in
      let e = or-eq-false _ _ d.0 in
      let f = >>-IsOk _ _ d.1 in
      record {
        counted = a.0;
        known = not-eq-false _ b.0;
        conn = c.0;
        at_min = e.0;
        at_max = e.1;
        action = check_action-IsValidAction r.action r.score f.0;
      }

  pub IsValidJudge-ScoreInRange :
      (frame : Bool) (r : JudgeRule F) → IsValidJudge frame r → ScoreInRange r
  IsValidJudge-ScoreInRange frame r v = score_in_range r.action r.score v.action

  validate_judges-All :
      (frame : Bool) (rules : List (JudgeRule F)) (deny_response : String)
      → IsOk (validate_judges frame rules deny_response)
      → All (IsValidJudge frame) rules
  unfolding validate_judges
  validate_judges-All frame rules deny_response h =
      let a = >>-IsOk (each (validate_judge frame) rules) _ h in
      All-imp _ _ (validate_judge-IsValidJudge frame) rules
        (each-IsOk (validate_judge frame) rules a.0)

module _ (compiles : String → Bool) {F : Type 0} ⦃fl : Float64 F⦄ where
  validate_measure-IsCompiled :
      (frame : Bool) (m n : MeasureRule F) → validate_measure compiles frame m ≡ ok n → IsCompiled n
  unfolding validate_measure
  validate_measure-IsCompiled frame m n h =
      let a = >>-eq-ok (fail_if (m.counter == "") "%s: counter is required") _ n h in
      let b = >>=-eq-ok (check_source compiles m) _ n a.1 in
      let c = >>-eq-ok (check_measure frame b.0) (ok b.0) n b.2 in
      check_source-IsCompiled compiles m n (b.1 ∙ c.1)

  -- What the phases of an accepted profile rest on.
  pub record IsValidProfile (p : Profile F) : Type 0 where
    pub request : All (IsValidJudge false) p.request.judge
    pub frame : All (IsValidJudge true) p.frame.judge
    pub response_measure : All IsCompiled p.response.measure
    pub frame_measure : All IsCompiled p.frame.measure

  validate_phases-IsValidProfile :
      (p q : Profile F) → validate_phases compiles p ≡ ok q → IsValidProfile q
  unfolding validate_phases
  validate_phases-IsValidProfile p q h =
      let a =
        >>-eq-ok
          (fail_if (not p.request.enabled && not p.response.enabled && not p.frame.enabled) _) _ q
          h in
      let b = >>-eq-ok (validate_judges false p.request.judge p.request.deny_response) _ q a.1 in
      let c = >>-eq-ok (validate_judges true p.frame.judge p.frame.deny_response) _ q b.1 in
      let d = >>=-eq-ok (each_map (validate_measure compiles false) p.response.measure) _ q c.1 in
      let e = >>=-eq-ok (each_map (validate_measure compiles true) p.frame.measure) _ q d.2 in
      let eq = ok_injective _ q e.2 in
      subst IsValidProfile eq (record {
        request = validate_judges-All false p.request.judge p.request.deny_response b.0;
        frame = validate_judges-All true p.frame.judge p.frame.deny_response c.0;
        response_measure =
            each_map-All _ IsCompiled (validate_measure-IsCompiled false) p.response.measure d.0
              d.1;
        frame_measure =
            each_map-All _ IsCompiled (validate_measure-IsCompiled true) p.frame.measure e.0 e.1;
      })

  past_off :
      (p q : Profile F)
      → p.mode ≢ "off"
      → (if p.mode == "off" then ok p else validate_phases compiles p) ≡ ok q
      → validate_phases compiles p ≡ ok q
  past_off p q on h = elim (Bool-cases (p.mode == "off")) [
    | inl e ↦ absurd (on ((eq_iff p.mode "off").0 e))
    | inr e ↦ rw e at h
  ]

  -- A profile that `Validate` accepts, and that is not off, has valid judge rules, with a score of 1 to
  -- 100 or a deny, and an expression in each measure rule that counts matches.
  pub validate-IsValidProfile :
      (p q : Profile F) → p.mode ≢ "off" → validate compiles p ≡ ok q → IsValidProfile q
  unfolding validate
  validate-IsValidProfile p q on h =
      let a =
        >>-eq-ok (fail_if (not (p.mode == "enforce" || p.mode == "observe" || p.mode == "off")) _) _
          q h in
      let b = >>-eq-ok (each validate_prior p.prior) _ q a.1 in
      let c = >>-eq-ok (each (validate_outcome "request") p.request.outcomes) _ q b.1 in
      let d = >>-eq-ok (each (validate_outcome "frame") p.frame.outcomes) _ q c.1 in
      validate_phases-IsValidProfile p q (past_off p q on d.1)
