-- ===== src/Decide/Taking.antt =====
-- internal/decide/decide.go: what `take` makes of a list of rules that fired.
use placitum_counter.Prelude.{
  Bool, Bool-cases, List, Option, String, [], ap, arith, false, if◌then◌else◌, inl, inr, ltb_ℤ,
  none, not, refl, some, true, ◌==◌, ◌||◌, ◌∙◌, ◌∷◌, ◌≡◌,
}
use placitum_counter.Protocol.{verdict_score, verdict_deny}
use placitum_counter.Config.Types.{JudgeRule}
use placitum_counter.Decide.{Decision, allow, take, denied, scored}

module _ {F : Type 0} where
  abbrev pub cons_last : JudgeRule F → Option (JudgeRule F) → Option (JudgeRule F)
  cons_last r none = if r.action == "deny" then some r else none
  cons_last r (some l) = some l

  -- The last rule that denies.
  unfoldable pub last_deny : List (JudgeRule F) → Option (JudgeRule F)
  last_deny [] = none
  last_deny (r ∷ rs) = cons_last r (last_deny rs)

  abbrev pub cons_best : JudgeRule F → Option (JudgeRule F) → Option (JudgeRule F)
  cons_best r none = some r
  cons_best r (some b) = if ltb_ℤ r.score b.score then some b else some r

  -- The first rule with the highest score.
  unfoldable pub best : List (JudgeRule F) → Option (JudgeRule F)
  best [] = none
  best (r ∷ rs) = cons_best r (best rs)

  -- The decision on the rules that fired: the last deny, else the highest score, else allow.
  abbrev pub on_fired : String → Option (JudgeRule F) → Option (JudgeRule F) → Decision
  on_fired deny_response (some l) b = denied deny_response allow l
  on_fired deny_response none (some b) = scored allow b
  on_fired deny_response none none = allow

  unfoldable pub take_all : String → Decision → List (JudgeRule F) → Decision
  take_all dr d [] = d
  take_all dr d (r ∷ rs) = take_all dr (take dr d r) rs

  abbrev after_deny : String → Decision → Option (JudgeRule F) → Decision
  after_deny dr d none = d
  after_deny dr d (some l) = denied dr d l

  take_deny :
      (dr : String) (d : Decision) (r : JudgeRule F)
      → (r.action == "deny") ≡ true
      → take dr d r ≡ denied dr d r
  unfolding take
  take_deny dr d r h = rw h refl

  take_all_denied :
      (dr : String) (d : Decision) (rs : List (JudgeRule F))
      → (d.verdict == verdict_deny) ≡ true
      → take_all dr d rs ≡ after_deny dr d (last_deny rs)
  unfolding take_all take last_deny
  take_all_denied dr d [] h = refl
  take_all_denied dr d (r ∷ rs) h =
      ground (arith, take_all_denied dr d rs h, take_all_denied dr (denied dr d r) rs refl)

  abbrev after_score : Decision → Option (JudgeRule F) → Decision
  after_score d none = d
  after_score d (some b) =
      if not (d.verdict == verdict_score) || ltb_ℤ d.score b.score then scored d b else d

  abbrev pub after_all : String → Decision → Option (JudgeRule F) → Option (JudgeRule F) → Decision
  after_all dr d (some l) b = denied dr d l
  after_all dr d none b = after_score d b

  pub scores_over : Decision → JudgeRule F → Bool
  scores_over d r = not (d.verdict == verdict_score) || ltb_ℤ d.score r.score

  scores_over_trans :
      (d : Decision) (r b : JudgeRule F)
      → scores_over d r ≡ true
      → ltb_ℤ r.score b.score ≡ true
      → scores_over d b ≡ true
  unfolding scores_over
  scores_over_trans d r b h k = ground arith

  not-scores_over_trans :
      (d : Decision) (r b : JudgeRule F)
      → scores_over d r ≡ false
      → ltb_ℤ r.score b.score ≡ false
      → scores_over d b ≡ false
  unfolding scores_over
  not-scores_over_trans d r b h k = ground arith

  after_score_cons_better :
      (d : Decision) (r b : JudgeRule F)
      → scores_over d r ≡ true
      → after_score (scored d r) (some b) ≡ after_score d (cons_best r (some b))
  unfolding scores_over
  after_score_cons_better d r b h = elim (Bool-cases (ltb_ℤ r.score b.score)) [
    | inl k ↦ let e : scores_over d b ≡ true = scores_over_trans d r b h k in rw (k, e) refl
    | inr k ↦ rw (k, h) refl
  ]

  after_score_cons_worse :
      (d : Decision) (r b : JudgeRule F)
      → scores_over d r ≡ false
      → after_score d (some b) ≡ after_score d (cons_best r (some b))
  unfolding scores_over
  after_score_cons_worse d r b h = elim (Bool-cases (ltb_ℤ r.score b.score)) [
    | inl k ↦ rw k refl
    | inr k ↦ let e : scores_over d b ≡ false = not-scores_over_trans d r b h k in rw (k, h, e) refl
  ]

  -- One round on a decision that is not yet a deny, for a rule that does not deny.
  after_score_cons :
      (d : Decision) (r : JudgeRule F) (b : Option (JudgeRule F))
      → after_score (if scores_over d r then scored d r else d) b ≡ after_score d (cons_best r b)
  after_score_cons d r none = unfold scores_over in refl
  after_score_cons d r (some b) = elim (Bool-cases (scores_over d r)) [
    | inl e ↦ rw e (after_score_cons_better d r b e)
    | inr e ↦ rw e (after_score_cons_worse d r b e)
  ]

  take_open :
      (dr : String) (d : Decision) (r : JudgeRule F)
      → (d.verdict == verdict_deny) ≡ false
      → (r.action == "deny") ≡ false
      → take dr d r ≡ (if scores_over d r then scored d r else d)
  unfolding take scores_over
  take_open dr d r h k = rw (k, h)

  scored_open :
      (d : Decision) (r : JudgeRule F)
      → (d.verdict == verdict_deny) ≡ false
      → ((if scores_over d r then scored d r else d).verdict == verdict_deny) ≡ false
  scored_open d r h = elim (Bool-cases (scores_over d r)) [ inl e ↦ rw e refl | inr e ↦ rw e h ]

  after_all_cons :
      (dr : String) (d : Decision) (r : JudgeRule F) (l b : Option (JudgeRule F))
      → (r.action == "deny") ≡ false
      → after_all dr (if scores_over d r then scored d r else d) l b
        ≡ after_all dr d (cons_last r l) (cons_best r b)
  after_all_cons dr d r none b h = rw h (after_score_cons d r b)
  after_all_cons dr d r (some l) b h = elim (Bool-cases (scores_over d r)) [
    | inl e ↦ rw e refl
    | inr e ↦ rw e refl
  ]

  after_deny_cons :
      (dr : String) (d : Decision) (r : JudgeRule F) (l b : Option (JudgeRule F))
      → (r.action == "deny") ≡ true
      → after_deny dr (denied dr d r) l ≡ after_all dr d (cons_last r l) b
  after_deny_cons dr d r none b h = rw h refl
  after_deny_cons dr d r (some l) b h = refl

  pub take_all_open :
      (dr : String) (d : Decision) (rs : List (JudgeRule F))
      → (d.verdict == verdict_deny) ≡ false
      → take_all dr d rs ≡ after_all dr d (last_deny rs) (best rs)
  unfolding take_all last_deny best
  take_all_open dr d [] h = refl
  take_all_open dr d (r ∷ rs) h = elim (Bool-cases (r.action == "deny")) [
    | inl k ↦
        ap (λ (c : Decision). take_all dr c rs) (take_deny dr d r k)
        ∙ take_all_denied dr (denied dr d r) rs refl
        ∙ after_deny_cons dr d r (last_deny rs) (best (r ∷ rs)) k
    | inr k ↦
        ap (λ (c : Decision). take_all dr c rs) (take_open dr d r h k)
        ∙ take_all_open dr (if scores_over d r then scored d r else d) rs (scored_open d r h)
        ∙ after_all_cons dr d r (last_deny rs) (best rs) k
  ]

  pub after_all-allow :
      (dr : String) (l b : Option (JudgeRule F)) → after_all dr allow l b ≡ on_fired dr l b
  after_all-allow dr none none = refl
  after_all-allow dr none (some b) = refl
  after_all-allow dr (some l) b = refl
