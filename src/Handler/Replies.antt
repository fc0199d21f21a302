-- ===== src/Handler/Replies.antt =====
-- cmd/inspector/handler.go: the verdict and the score of a reply.
use placitum_counter.Prelude.{
  All, Bool-cases, IsOk, List, Option, String, [], ap, arith, eq_iff, fail_if->>-IsOk, false,
  if◌then◌else◌, inl, inr, is_empty, ltb_ℤ, none, not, ok, pos, refl, some, subst, sym, true, ℤ,
  ◌&&◌, ◌++◌, ◌==◌, ◌||◌, ◌∙◌, ◌∷◌, ◌≡◌, ◌≤ℤ◌,
}
use placitum_counter.Prelude.Float.{Float64}
use placitum_counter.Protocol.{Request, Action, verdict_score, verdict_deny, verdict_allow}
use placitum_counter.Protocol.Replies.{Reply, marshal, with_score, new_reply, score_out}
use placitum_counter.Config.Types.{Profile, JudgeRule}
use placitum_counter.Decide.{
  Decision, LevelLookup, RuleAudit, judge_request, row_of, deny_response_of, judge, judge_loop,
  judge_rule, take, observe, allow,
}
use placitum_counter.Decide.Observe.{ScoreInRange}
use placitum_counter.Decide.Scale.{scale_score_bounds}
use placitum_counter.Handler.{
  scored_of, would_scaled, reply_to, or_internal, with_code, judge_reply,
}

observe-score-le :
    (mode : String) (d : Decision) → d.score ≤ℤ pos 100 → (observe mode d).score ≤ℤ pos 100
unfolding observe
observe-score-le mode d h =
    elim (Bool-cases (mode == "observe" && not (d.verdict == verdict_allow))) [
      | inl aside ↦ rw aside (omega arith)
      | inr kept ↦ rw kept h
    ]

-- What a reply is when nothing went wrong with the decision's score.
abbrev pub Carries : Reply → String → Type 0
Carries r verdict = (r.verdict ≡ verdict) × IsOk (marshal r)

with_score-Carries :
    (req : Request) (score : ℤ) (plain : Reply)
    → (pos 0 ≤ℤ score) × (score ≤ℤ pos 100)
    → Carries (or_internal req (with_score score plain)) verdict_score
unfolding with_score marshal
with_score-Carries req score plain h =
    let fine : (ltb_ℤ score (pos 0) || ltb_ℤ (pos 100) score) ≡ false = ground arith in
    rw (fine, fine) (refl, tt)

plain-Carries : (code : String) (r : Reply) → r.score ≡ none → Carries (with_code code r) r.verdict
unfolding marshal
plain-Carries code r h = elim (Bool-cases (code == "")) [
  | inl bare ↦ rw (bare, h) (refl, tt)
  | inr named ↦ rw (named, h) (refl, tt)
]

response-Carries :
    (r : Reply) (verdict : String) (response : Option String)
    → Carries r verdict
    → Carries (record r { response = response }) verdict
unfolding marshal
response-Carries r verdict response h =
    let fine = (fail_if->>-IsOk (score_out r.score) "%w: %d" (ok r) h.1).0 in (h.0, rw fine tt)

-- The reply carries the verdict that it is built for, and `Marshal` accepts it, when a score that
-- it carries is within 0..100.
pub reply_to-Carries :
    (req : Request) (d : Decision) (scored : ℤ)
    → (d.verdict ≡ verdict_score → (pos 0 ≤ℤ scored) × (scored ≤ℤ pos 100))
    → Carries (reply_to req d scored) d.verdict
unfolding reply_to
reply_to-Carries req d scored h =
    let plain = with_code d.code (new_reply req d.verdict) in
    let carried = plain-Carries d.code (new_reply req d.verdict) (unfold new_reply in refl) in
    elim (Bool-cases (d.verdict == verdict_score)) [
      | inl score ↦
          let e = (eq_iff d.verdict verdict_score).0 score in
          let not_deny : (d.verdict == verdict_deny) ≡ false = ap (λ s. s == verdict_deny) e in
          rw (not_deny, score)
            (subst (λ v. Carries (or_internal req (with_score scored plain)) v) (sym e)
              (with_score-Carries req scored plain (h e)))
      | inr other ↦ elim (Bool-cases (d.verdict == verdict_deny)) [
        | inl deny ↦
            rw (other, deny) (response-Carries plain d.verdict (some d.deny_response) carried)
        | inr pass ↦ rw (other, pass) carried
      ]
    ]

pub reply-unchanged :
    (r : Reply) (xs : List Action) (verdict : String)
    → Carries r verdict
    → Carries (if is_empty xs then r else record r { actions = xs }) verdict
unfolding marshal
reply-unchanged r [] verdict h = h
reply-unchanged r (x ∷ xs) verdict h =
    let fine = (fail_if->>-IsOk (score_out r.score) "%w: %d" (ok r) h.1).0 in (h.0, rw fine tt)

pub scored_of-bounds :
    {F : Type 0} (fl : Float64 F) (d : Decision) (percent : ℤ)
    → d.score ≤ℤ pos 100
    → d.verdict ≡ verdict_score
    → (pos 0 ≤ℤ scored_of fl d percent) × (scored_of fl d percent ≤ℤ pos 100)
unfolding scored_of
scored_of-bounds fl d percent h e =
    let is_score : (d.verdict == verdict_score) ≡ true = (eq_iff d.verdict verdict_score).1 e in
    rw is_score (scale_score_bounds fl d.score percent h)

pub would_scaled-verdict :
    {F : Type 0} (fl : Float64 F) (d : Decision) (percent : ℤ)
    → (would_scaled fl d percent).verdict ≡ d.verdict
unfolding would_scaled
would_scaled-verdict fl d percent = elim (Bool-cases (d.would_verdict == verdict_score)) [
  | inl aside ↦ rw aside refl
  | inr other ↦ rw other refl
]

module _ {F : Type 0} ⦃fl : Float64 F⦄ where
  take-score-le :
      (dr : String) (d : Decision) (r : JudgeRule F)
      → d.score ≤ℤ pos 100
      → ScoreInRange r
      → (take dr d r).score ≤ℤ pos 100
  unfolding take
  take-score-le dr d r h g = elim (Bool-cases (r.action == "deny")) [
    | inl deny ↦ rw deny (omega arith)
    | inr pass ↦ elim (Bool-cases (d.verdict == verdict_deny)) [
      | inl kept ↦ rw (pass, kept) h
      | inr open_still ↦
          elim (Bool-cases (not (d.verdict == verdict_score) || ltb_ℤ d.score r.score)) [
            | inl more ↦ rw (pass, open_still, more) g.1
            | inr less ↦ rw (pass, open_still, less) h
          ]
    ]
  ]

  judge_rule-score-le :
      (dr : String) (d : Decision) (r : JudgeRule F) (found : Option (F × String))
      → d.score ≤ℤ pos 100
      → ScoreInRange r
      → (judge_rule dr d r found).score ≤ℤ pos 100
  unfolding judge_rule
  judge_rule-score-le dr d r none h g = h
  judge_rule-score-le dr d r (some (percent, key)) h g = elim (Bool-cases (fl.lt percent r.at)) [
    | inl below ↦ rw below h
    | inr reached ↦ rw reached (take-score-le dr d r h g)
  ]

  judge_loop-score-le :
      (dr : String) (lookup : LevelLookup F) (d : Decision) (rows : List (RuleAudit F))
      (rules : List (JudgeRule F))
      → d.score ≤ℤ pos 100
      → All ScoreInRange rules
      → (judge_loop dr lookup d rows rules).0.score ≤ℤ pos 100
  unfolding judge_loop
  judge_loop-score-le dr lookup d rows [] h g = h
  judge_loop-score-le dr lookup d rows (r ∷ rs) h g =
      let found = lookup r.counter r.axis in
      judge_loop-score-le dr lookup (judge_rule dr d r found) (rows ++ (row_of r found ∷ [])) rs
        (judge_rule-score-le dr d r found h g.0) g.1

  pub judge-score-le :
      (rules : List (JudgeRule F)) (dr mode : String) (lookup : LevelLookup F)
      → All ScoreInRange rules
      → (judge rules dr mode lookup).0.score ≤ℤ pos 100
  unfolding judge
  judge-score-le [] dr mode lookup g = omega arith
  judge-score-le (r ∷ rs) dr mode lookup g =
      observe-score-le mode (judge_loop dr lookup allow [] (r ∷ rs)).0
        (judge_loop-score-le dr lookup allow [] (r ∷ rs) (omega arith) g)

  -- On rules with scores within 0..100, as those of an accepted profile are, the reply of
  -- `handler.judge` carries the verdict of `Judge` under every percentage that was asked for, and
  -- `Marshal` accepts it: no score is turned into an internal error.
  pub judge_reply-Carries :
      (p : Profile F) (lookup : LevelLookup F) (req : Request) (percent fill : ℤ)
      → All ScoreInRange p.request.judge
      → Carries (judge_reply p lookup req percent fill).0 (judge_request p lookup).0.verdict
  unfolding judge_reply judge_request
  judge_reply-Carries p lookup req percent fill g =
      let judged = (judge_request p lookup).0 in
      let low : judged.score ≤ℤ pos 100 =
        judge-score-le p.request.judge (deny_response_of p) p.mode lookup g in
      let scored = scored_of fl judged percent in
      let d = would_scaled fl judged percent in
      let same = would_scaled-verdict fl judged percent in
      reply-unchanged (reply_to req d scored) _ judged.verdict (
        subst (λ v. Carries (reply_to req d scored) v) same
          (reply_to-Carries req d scored
            (λ e. scored_of-bounds fl judged percent low (sym same ∙ e))))
