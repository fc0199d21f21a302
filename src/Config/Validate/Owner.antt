-- ===== src/Config/Validate/Owner.antt =====
-- internal/config/profile.go: `ValidateAgainst` and the owners of a counter.
use placitum_counter.Prelude.{
  >>-IsOk, All, All-imp, Bool-cases, IsOk, List, ap, arith, each, each-IsOk, eq_iff, fail_if,
  fail_if->>-IsOk, fail_if-IsOk, inl, inr, not, not-eq-false, subst, sym, true, ◌==◌, ◌>>◌, ◌∙◌,
  ◌≡◌, ◌≢◌,
}
use mathlib.Core.Bool.{false≢true}
use placitum_counter.Config.Types.{MeasureRule, PriorRule, Profile, Counters}
use placitum_counter.Config.Counters.{has_axis, fill}
use placitum_counter.Config.Validate.Against.{
  judge_against, measure_against, outcome_against, prior_against, validate_against, phases_against,
}
use placitum_counter.Decide.Prior.{accepts}

module _ {F : Type 0} (c : Counters F) where
  measure_against-Fill :
      (m : MeasureRule F)
      → IsOk (measure_against c m)
      → (fill c m.counter ≡ "measure") × All (λ axis. has_axis c m.counter axis ≡ true) m.axes
  unfolding measure_against
  measure_against-Fill m h =
      let a = fail_if->>-IsOk _ _ _ h in
      let b = fail_if->>-IsOk _ _ _ a.1 in
      (
        (eq_iff (fill c m.counter) "measure").0 (not-eq-false _ b.0),
        All-imp _ _ (λ axis k. not-eq-false _ (fail_if-IsOk _ _ k)) m.axes
            (each-IsOk
              (λ axis.
                fail_if (not (has_axis c m.counter axis)) "measure[%d]: counter %q has no axis %q")
              m.axes b.1),
      )

  prior_against-Fill :
      (r : PriorRule)
      → IsOk (prior_against c r)
      → accepts r "note" ≡ true
      → fill c r.counter ≡ "note"
  unfolding prior_against
  prior_against-Fill r h e = ground (arith, e, eq_iff (fill c r.counter) "note")

  -- A counter that a measure rule fills is not one that a note fills.
  abbrev pub OneOwner : List PriorRule → MeasureRule F → Type 0
  OneOwner rules m = All (λ r. accepts r "note" ≡ true → m.counter ≢ r.counter) rules

  owner_differs :
      (m : MeasureRule F) (r : PriorRule)
      → fill c m.counter ≡ "measure"
      → IsOk (prior_against c r)
      → accepts r "note" ≡ true
      → m.counter ≢ r.counter
  owner_differs m r e h n same =
      let p : fill c r.counter ≡ "measure" = subst (λ s. fill c s ≡ "measure") same e in
      false≢true (ap (λ s. s == "measure") (sym (prior_against-Fill r h n) ∙ p))

  measures-OneOwner :
      (rules : List PriorRule) (ms : List (MeasureRule F))
      → All (λ r. IsOk (prior_against c r)) rules
      → All (λ m. IsOk (measure_against c m)) ms
      → All (λ m. OneOwner rules m × All (λ axis. has_axis c m.counter axis ≡ true) m.axes) ms
  measures-OneOwner rules ms hr hm =
      All-imp _ _
        (λ m h.
          let f = measure_against-Fill m h in
          (All-imp _ _ (λ r k. owner_differs m r f.0 k) rules hr, f.1))
        ms hm

  against_phases :
      (p : Profile F)
      → p.mode ≢ "off"
      → IsOk (validate_against c p)
      → IsOk (
          each (judge_against c) p.request.judge
          >> (each (measure_against c) p.response.measure
              >> (each (outcome_against c) p.request.outcomes
                  >> (each (judge_against c) p.frame.judge
                      >> (each (measure_against c) p.frame.measure
                          >> (each (outcome_against c) p.frame.outcomes
                              >> each (prior_against c) p.prior))))))
  unfolding validate_against phases_against
  against_phases p on h = elim (Bool-cases (p.mode == "off")) [
    | inl e ↦ absurd (on ((eq_iff p.mode "off").0 e))
    | inr e ↦ rw e at h
  ]

  -- In a profile that the counters accept, and that is not off, no counter is filled both by a measure
  -- rule, of the response or of the frame phase, and by a neighbour's note; and every axis that a
  -- measure rule names is declared by its counter.
  pub validate_against-OneOwner :
      (p : Profile F)
      → p.mode ≢ "off"
      → IsOk (validate_against c p)
      → let Owned = λ (m : MeasureRule F).
        OneOwner p.prior m × All (λ axis. has_axis c m.counter axis ≡ true) m.axes in
        All Owned p.response.measure × All Owned p.frame.measure
  validate_against-OneOwner p on h =
      let a = >>-IsOk (each (judge_against c) p.request.judge) _ (against_phases p on h) in
      let b = >>-IsOk (each (measure_against c) p.response.measure) _ a.1 in
      let d = >>-IsOk (each (outcome_against c) p.request.outcomes) _ b.1 in
      let e = >>-IsOk (each (judge_against c) p.frame.judge) _ d.1 in
      let f = >>-IsOk (each (measure_against c) p.frame.measure) _ e.1 in
      let g = >>-IsOk (each (outcome_against c) p.frame.outcomes) _ f.1 in
      let priors = each-IsOk (prior_against c) p.prior g.1 in
      (
        measures-OneOwner p.prior p.response.measure priors
            (each-IsOk (measure_against c) p.response.measure b.0),
        measures-OneOwner p.prior p.frame.measure priors
            (each-IsOk (measure_against c) p.frame.measure f.0),
      )
