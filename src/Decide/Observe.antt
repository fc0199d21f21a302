-- ===== src/Decide/Observe.antt =====
-- internal/decide/decide.go: the observe mode, and how the verdict follows the levels.
use placitum_counter.Prelude.{
  All, Bool, Bool-cases, List, Option, String, [], arith, false, if◌then◌else◌, inl, inr, none, pos,
  pos_part, pos_part-le, refl, select, some, true, ℕ, ◌==◌, ◌||◌, ◌∷◌, ◌≡◌, ◌≤ℤ◌, ◌≤◌,
}
use placitum_counter.Prelude.Float.{Float64}
use placitum_counter.Protocol.{verdict_allow, verdict_score, verdict_deny}
use placitum_counter.Config.Types.{JudgeRule}
use placitum_counter.Decide.{Decision, LevelLookup, observe, judge}
use Prim.Native.Nat.{max}
use placitum_counter.Decide.Verdict.{fires, fires_on, judge-eq-on_fired}
use placitum_counter.Decide.Taking.{cons_last, cons_best, last_deny, best, on_fired}

-- What a rule would do to the client: nothing, a score, or a deny.
abbrev pub severity : Decision → ℕ
severity d =
    if d.verdict == verdict_deny
    then 101
    else if d.verdict == verdict_score
    then pos_part d.score
    else 0

abbrev Observed : Decision → Decision → Type 0
Observed d e =
    (d.verdict ≡ verdict_allow)
    × (d.score ≡ pos 0)
    × (d.deny_response ≡ "")
    × (d.would_verdict ≡ (if e.verdict == verdict_allow then "" else e.verdict))
    × (d.would_score ≡ (if e.verdict == verdict_allow then pos 0 else e.score))
    × (d.would_code ≡ (if e.verdict == verdict_allow then "" else e.code))

Observed-on_fired :
    {F : Type 0} (dr : String) (l b : Option (JudgeRule F))
    → Observed (observe "observe" (on_fired dr l b)) (observe "enforce" (on_fired dr l b))
unfolding observe
Observed-on_fired dr none none = (refl, refl, refl, refl, refl, refl)
Observed-on_fired dr none (some b) = (refl, refl, refl, refl, refl, refl)
Observed-on_fired dr (some l) b = (refl, refl, refl, refl, refl, refl)

module _ {F : Type 0} ⦃fl : Float64 F⦄ where
  -- An observed profile lets every request pass. What an enforcing profile would have decided on the
  -- same rules and levels is in the `would` fields, unless it would have allowed the request too.
  pub judge_observe :
      (rules : List (JudgeRule F)) (deny_response : String) (lookup : LevelLookup F)
      → let d = (judge rules deny_response "observe" lookup).0 in
        let e = (judge rules deny_response "enforce" lookup).0 in
        (d.verdict ≡ verdict_allow)
        × (d.score ≡ pos 0)
        × (d.deny_response ≡ "")
        × (d.would_verdict ≡ (if e.verdict == verdict_allow then "" else e.verdict))
        × (d.would_score ≡ (if e.verdict == verdict_allow then pos 0 else e.score))
        × (d.would_code ≡ (if e.verdict == verdict_allow then "" else e.code))
  judge_observe rules dr lookup =
      rw (judge-eq-on_fired rules dr "observe" lookup, judge-eq-on_fired rules dr "enforce" lookup)
        (Observed-on_fired dr (last_deny (select (fires lookup) rules))
          (best (select (fires lookup) rules)))

  -- Levels only rise from one lookup to another: every subject that is found stays found, with a
  -- percent that is at least as high.
  abbrev pub Above : Option (F × String) → Option (F × String) → Type 0
  Above none found = Unit {0}
  Above (some (p, key)) none = ⊥
  Above (some (p, key)) (some (p', key')) = fl.le p p' ≡ true

  fires-Above :
      (r : JudgeRule F) (a b : Option (F × String))
      → Above a b
      → fires_on r a ≡ true
      → fires_on r b ≡ true
  fires-Above r none b h f = cc
  fires-Above r (some (p, key)) none h f = absurd h
  fires-Above r (some (p, key)) (some (p', key')) h f = elim (Bool-cases (fl.lt p' r.at)) [
    | inl e ↦ cc (fl.le-lt_trans p p' r.at h e)
    | inr e ↦ rw e refl
  ]

  -- The scores that the rules may ask for: 1 to 100, as `validateJudge` demands, or 0 on a deny.
  abbrev pub ScoreInRange : JudgeRule F → Type 0
  ScoreInRange r = (pos 0 ≤ℤ r.score) × (r.score ≤ℤ pos 100)

  abbrev best_score : Option (JudgeRule F) → ℕ
  best_score none = 0
  best_score (some b) = pos_part b.score

  abbrev denies : Option (JudgeRule F) → Bool
  denies none = false
  denies (some l) = true

  denies-cons :
      (r : JudgeRule F) (l : Option (JudgeRule F))
      → denies (cons_last r l) ≡ ((r.action == "deny") || denies l)
  denies-cons r none = ground arith
  denies-cons r (some l) = ground arith

  best_score-cons :
      (r : JudgeRule F) (b : Option (JudgeRule F))
      → best_score (cons_best r b) ≡ max (pos_part r.score) (best_score b)
  best_score-cons r none = omega arith
  best_score-cons r (some b) = ground arith

  best_score_bound :
      (p : JudgeRule F → Bool) (rules : List (JudgeRule F))
      → All ScoreInRange rules
      → best_score (best (select p rules)) ≤ 100
  unfolding select best
  best_score_bound p [] h = omega arith
  best_score_bound p (r ∷ rs) h = elim (Bool-cases (p r)) [
    | inl e ↦ rw e (
        omega (
          arith,
          pos_part-le r.score 100 h.0.1,
          best_score-cons r (best (select p rs)),
          best_score_bound p rs h.1,
        ))
    | inr e ↦ rw e (best_score_bound p rs h.1)
  ]

  -- Two tests, of which the second passes whenever the first does.
  module _ (p q : JudgeRule F → Bool) (imp : (r : JudgeRule F) → p r ≡ true → q r ≡ true) where
    best_score_mono :
        (rules : List (JudgeRule F))
        → best_score (best (select p rules)) ≤ best_score (best (select q rules))
    unfolding select best
    best_score_mono [] = omega arith
    best_score_mono (r ∷ rs) = elim (Bool-cases (p r)) [
      | inl e ↦
          rw (e, imp r e)
            (omega (
              arith,
              best_score-cons r (best (select p rs)),
              best_score-cons r (best (select q rs)),
              best_score_mono rs,
            ))
      | inr e ↦ elim (Bool-cases (q r)) [
        | inl k ↦
            rw (e, k) (omega (arith, best_score-cons r (best (select q rs)), best_score_mono rs))
        | inr k ↦ rw (e, k) (best_score_mono rs)
      ]
    ]

    denies_mono :
        (rules : List (JudgeRule F))
        → denies (last_deny (select p rules)) ≡ true
        → denies (last_deny (select q rules)) ≡ true
    unfolding select last_deny
    denies_mono [] h = h
    denies_mono (r ∷ rs) h = ground (
      arith,
      imp r,
      denies-cons r (last_deny (select p rs)),
      denies-cons r (last_deny (select q rs)),
      denies_mono rs,
    )

  severity-on_fired :
      (dr : String) (l b : Option (JudgeRule F))
      → severity (observe "enforce" (on_fired dr l b)) ≡ (if denies l then 101 else best_score b)
  unfolding observe
  severity-on_fired dr none none = refl
  severity-on_fired dr none (some b) = refl
  severity-on_fired dr (some l) b = refl

  -- Higher levels never lead to a milder verdict: what fires keeps firing, a deny stays a deny, and a
  -- score does not fall. This holds of an enforcing profile whose scores are in range.
  pub judge_mono :
      (rules : List (JudgeRule F)) (deny_response : String) (low high : LevelLookup F)
      → All ScoreInRange rules
      → ((counter axis : String) → Above (low counter axis) (high counter axis))
      → severity (judge rules deny_response "enforce" low).0
        ≤ severity (judge rules deny_response "enforce" high).0
  judge_mono rules dr low high range up =
      let imp : (r : JudgeRule F) → fires low r ≡ true → fires high r ≡ true =
        λ r. fires-Above r _ _ (up r.counter r.axis) in
      rw (judge-eq-on_fired rules dr "enforce" low, judge-eq-on_fired rules dr "enforce" high)
        (rw
          (
            severity-on_fired dr (last_deny (select (fires low) rules)),
            severity-on_fired dr (last_deny (select (fires high) rules)),
          )
          (ground (
            arith,
            denies_mono (fires low) (fires high) imp rules,
            best_score_mono (fires low) (fires high) imp rules,
            best_score_bound (fires low) rules range,
            best_score_bound (fires high) rules range,
          )))
