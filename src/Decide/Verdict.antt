-- ===== src/Decide/Verdict.antt =====
-- internal/decide/decide.go: the verdict of `judge` against a description that does not go through
-- the rules one by one.
use placitum_counter.Prelude.{
  Bool, List, Option, String, [], ap, append-nil, append_assoc, arith, false, if◌then◌else◌, map,
  none, not, refl, select, some, sym, true, ◌++◌, ◌∙◌, ◌∷◌, ◌≡◌,
}
use mathlib.Core.Path.{ap₂}
use placitum_counter.Prelude.Float.{Float64}
use placitum_counter.Config.Types.{JudgeRule}
use placitum_counter.Decide.{
  Decision, RuleAudit, LevelLookup, allow, observe, take, row_of, judge_rule, judge_loop, judge,
}
use placitum_counter.Decide.Taking.{
  last_deny, best, on_fired, take_all, take_all_open, after_all-allow,
}

module _ {F : Type 0} ⦃fl : Float64 F⦄ where
  abbrev pub fires_on : JudgeRule F → Option (F × String) → Bool
  fires_on r none = false
  fires_on r (some (percent, key)) = not (fl.lt percent r.at)

  -- A rule fires if its counter has a subject whose level is not below the threshold.
  abbrev pub fires : LevelLookup F → JudgeRule F → Bool
  fires lookup r = fires_on r (lookup r.counter r.axis)

  judge_rule_fires :
      (dr : String) (d : Decision) (r : JudgeRule F) (found : Option (F × String))
      → judge_rule dr d r found ≡ (if fires_on r found then take dr d r else d)
  unfolding judge_rule
  judge_rule_fires dr d r none = refl
  judge_rule_fires dr d r (some (percent, key)) = ground arith

  take_all_select :
      (dr : String) (d : Decision) (r : JudgeRule F) (rs : List (JudgeRule F)) (b : Bool)
      → take_all dr (if b then take dr d r else d) rs ≡ take_all dr d (if b then r ∷ rs else rs)
  unfolding take_all
  take_all_select dr d r rs true = refl
  take_all_select dr d r rs false = refl

  judge_loop_lem :
      (dr : String) (lookup : LevelLookup F) (d : Decision) (audit : List (RuleAudit F))
      (rs : List (JudgeRule F))
      → judge_loop dr lookup d audit rs ≡ (
        take_all dr d (select (fires lookup) rs),
        audit ++ map (λ r. row_of r (lookup r.counter r.axis)) rs,
      )
  unfolding judge_loop take_all select
  judge_loop_lem dr lookup d audit [] =
      ap (λ (l : List (RuleAudit F)). (d, l)) (sym (append-nil audit))
  judge_loop_lem dr lookup d audit (r ∷ rs) =
      let row = row_of r (lookup r.counter r.axis) in
      judge_loop_lem dr lookup (judge_rule dr d r (lookup r.counter r.axis)) (audit ++ (row ∷ []))
        rs
      ∙ ap₂
          (λ (c : Decision) (l : List (RuleAudit F)).
            let t : Decision × List (RuleAudit F) = (c, l) in t)
          (rw judge_rule_fires (
            take_all_select dr d r (select (fires lookup) rs)
              (fires_on r (lookup r.counter r.axis))))
          (append_assoc audit (row ∷ []) _)

  -- The verdict of `judge` depends only on the rules that fire: the last of them that denies decides,
  -- with its code and the section's deny response; without one, the first of those with the highest
  -- score; without any, the request is allowed. The observe mode is applied to the result. The
  -- audit has one row for each rule, in the rules' order.
  pub judge-eq-on_fired :
      (rules : List (JudgeRule F)) (deny_response mode : String) (lookup : LevelLookup F)
      → judge rules deny_response mode lookup ≡ (
        observe mode (
            on_fired deny_response
              (last_deny (select (fires lookup) rules))
              (best (select (fires lookup) rules))),
        map (λ r. row_of r (lookup r.counter r.axis)) rules,
      )
  unfolding judge
  judge-eq-on_fired [] dr mode lookup = unfold observe select last_deny best in ground arith
  judge-eq-on_fired (r ∷ rs) dr mode lookup =
      ap
        (λ (t : Decision × List (RuleAudit F)).
          let u : Decision × List (RuleAudit F) = (observe mode t.0, t.1) in u)
        (judge_loop_lem dr lookup allow [] (r ∷ rs)
          ∙ ap
              (λ (c : Decision).
                let t : Decision × List (RuleAudit F) =
                  (c, map (λ r. row_of r (lookup r.counter r.axis)) (r ∷ rs)) in
                t)
              (take_all_open dr allow (select (fires lookup) (r ∷ rs)) refl
                ∙ after_all-allow dr _ _))
