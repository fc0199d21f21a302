-- ===== src/Decide/Prior/Percent.antt =====
-- internal/decide/prior.go: `EvaluatePrior` and its deliveries.
use placitum_counter.Prelude.{
  Bool, Bool-cases, List, String, [], add64, any, ap, append-nil, arith, beq_ℤ, eq_iff, false,
  if◌then◌else◌, inl, inr, is_empty, map, not, or-false, or-true, pos, refl, select, some, sym,
  true, ◌&&◌, ◌++◌, ◌==◌, ◌∙◌, ◌∷◌, ◌≡◌, ◌≤ℤ◌,
}
use placitum_counter.Protocol.{Action, PriorVerdict, scope}
use placitum_counter.Config.Types.{PriorRule, Profile, Counters}
use placitum_counter.Config.Counters.{note_axes}
use placitum_counter.Decide.Prior.{
  percent_min, percent_max, ActionOutcome, Ask, no_ask, charge_here, note_charge, takes, note,
  deliver_rule, deliver_rules, new_outcome, deliver, deliver_actions, deliver_verdicts,
  clamp_percent, evaluate_prior, apply, no_counter,
}
use placitum_counter.Decide.Prior.Deliveries.{
  delivery, of_action, of_actions, of_verdicts, is_skip, sum_deltas, charges, all_charges, View,
  view, take_delivery, take_deliveries, take_deliveries-append, take_deliveries_lem,
}

module _ {F : Type 0} (counters : Counters F) where
  view-charge :
      (r : PriorRule) (act : Action) (from : String) (a : Ask) (out : ActionOutcome)
      (axes : List String)
      → view (
          let t : Ask × ActionOutcome = if is_empty axes then (a, no_counter out) else (
            record a { notes = a.notes ++ map (note_charge from r act) axes },
            apply out act.value,
          ) in
          t.0)
        ≡ (a.skip, a.percent, a.notes ++ map (note_charge from r act) axes)
  view-charge r act from a out [] = λ i. (a.skip, a.percent, sym (append-nil a.notes) i)
  view-charge r act from a out (x ∷ axes) = refl

  view-note :
      (r : PriorRule) (act : Action) (from : String) (a : Ask) (out : ActionOutcome)
      → view (note counters r act from (a, out)).0 ≡ (
        a.skip,
        a.percent,
        a.notes
            ++ (if not (beq_ℤ act.value (pos 0))
                then map (note_charge from r act) (note_axes counters r.counter (scope act))
                else []),
      )
  unfolding note
  view-note r act from a out = elim (Bool-cases (beq_ℤ act.value (pos 0))) [
    | inl e ↦ rw e (λ i. (a.skip, a.percent, sym (append-nil a.notes) i))
    | inr e ↦ rw e (view-charge r act from a out (note_axes counters r.counter (scope act)))
  ]

  -- An action's verb decides the tests on the other verbs.
  verb_is : (verb word other : String) → (verb == word) ≡ true → (verb == other) ≡ (word == other)
  verb_is verb word other e = ap (λ s. s == other) ((eq_iff verb word).0 e)

  view-deliver_rule :
      (r : PriorRule) (act : Action) (from : String) (a : Ask) (out : ActionOutcome)
      → view (deliver_rule counters r act from (a, out)).0
        ≡ take_delivery counters (view a) (record { from = from; act = act; rule = r })
  unfolding deliver_rule take_delivery is_skip charges
  view-deliver_rule r act from a out = elim (Bool-cases (act.verb == "skip")) [
    | inl e ↦
        let t = verb_is act.verb "skip" "threshold" e in
        let n = verb_is act.verb "skip" "note" e in
        rw (e, t, n) (λ i. (sym (or-true a.skip) i, a.percent, sym (append-nil a.notes) i))
    | inr e ↦ elim (Bool-cases (act.verb == "threshold")) [
      | inl t ↦
          let n = verb_is act.verb "threshold" "note" t in
          rw (e, t, n)
            (λ i. (sym (or-false a.skip) i, add64 a.percent act.delta, sym (append-nil a.notes) i))
      | inr t ↦ elim (Bool-cases (act.verb == "note")) [
        | inl n ↦
            rw (e, t, n)
              (view-note r act from a out ∙ λ i. (
                sym (or-false a.skip) i,
                a.percent,
                a.notes
                    ++ (if not (beq_ℤ act.value (pos 0))
                        then map (note_charge from r act) (note_axes counters r.counter (scope act))
                        else []),
              ))
        | inr n ↦
            rw (e, t, n) (λ i. (sym (or-false a.skip) i, a.percent, sym (append-nil a.notes) i))
      ]
    ]
  ]

  view-taken :
      (b : Bool) (r : PriorRule) (act : Action) (from : String) (s : Ask × ActionOutcome)
      (rs : List PriorRule)
      → take_deliveries counters
          (view (if b then deliver_rule counters r act from s else s).0)
          (map (delivery from act) rs)
        ≡ take_deliveries counters (view s.0) (map (delivery from act) (if b then r ∷ rs else rs))
  unfolding take_deliveries
  view-taken true r act from s rs =
      ap (λ (v : View). take_deliveries counters v (map (delivery from act) rs))
        (view-deliver_rule r act from s.0 s.1)
  view-taken false r act from s rs = refl

  view-deliver_rules :
      (rules : List PriorRule) (act : Action) (from : String) (s : Ask × ActionOutcome)
      → view (deliver_rules counters rules act from s).0
        ≡ take_deliveries counters (view s.0) (of_action rules from act)
  unfolding deliver_rules of_action select
  view-deliver_rules [] act from s = unfold take_deliveries in refl
  view-deliver_rules (r ∷ rs) act from s =
      view-deliver_rules rs act from
        (if takes from act r then deliver_rule counters r act from s else s)
      ∙ view-taken (takes from act r) r act from s (select (takes from act) rs)

  view-deliver :
      (rules : List PriorRule) (from : String) (a : Ask) (act : Action)
      → view (deliver counters rules from a act)
        ≡ take_deliveries counters (view a) (of_action rules from act)
  unfolding deliver
  view-deliver rules from a act = view-deliver_rules rules act from (a, new_outcome from act)

  view-passed :
      (b : Bool) (rules : List PriorRule) (from : String) (a : Ask) (act : Action)
      → view (if b then a else deliver counters rules from a act)
        ≡ take_deliveries counters (view a) (if b then [] else of_action rules from act)
  view-passed true rules from a act = unfold take_deliveries in refl
  view-passed false rules from a act = view-deliver rules from a act

  view-deliver_actions :
      (rules : List PriorRule) (phase : String) (enabled : Bool) (v : PriorVerdict) (a : Ask)
      (acts : List Action)
      → view (deliver_actions counters rules phase enabled v a acts)
        ≡ take_deliveries counters (view a) (of_actions rules phase enabled v acts)
  unfolding deliver_actions of_actions
  view-deliver_actions rules phase enabled v a [] = unfold take_deliveries in refl
  view-deliver_actions rules phase enabled v a (act ∷ acts) =
      let passed = act.verb == "note" && not (charge_here v.phase phase enabled) in
      view-deliver_actions rules phase enabled v
        (if passed then a else deliver counters rules v.inspector a act) acts
      ∙ ap (λ (w : View). take_deliveries counters w (of_actions rules phase enabled v acts))
          (view-passed passed rules v.inspector a act)
      ∙ sym (
          take_deliveries-append counters (view a)
            (if passed then [] else of_action rules v.inspector act)
            (of_actions rules phase enabled v acts))

  view-deliver_verdicts :
      (rules : List PriorRule) (phase : String) (enabled : Bool) (a : Ask) (vs : List PriorVerdict)
      → view (deliver_verdicts counters rules phase enabled a vs)
        ≡ take_deliveries counters (view a) (of_verdicts rules phase enabled vs)
  unfolding deliver_verdicts of_verdicts
  view-deliver_verdicts rules phase enabled a [] = unfold take_deliveries in refl
  view-deliver_verdicts rules phase enabled a (v ∷ vs) =
      view-deliver_verdicts rules phase enabled
        (deliver_actions counters rules phase enabled v a v.actions) vs
      ∙ ap (λ (w : View). take_deliveries counters w (of_verdicts rules phase enabled vs))
          (view-deliver_actions rules phase enabled v a v.actions)
      ∙ sym (
          take_deliveries-append counters (view a) (of_actions rules phase enabled v v.actions)
            (of_verdicts rules phase enabled vs))

  -- What a profile takes from the verdicts before it is what its deliveries give, each rule that
  -- takes an action counted once: the request is skipped if one of them is a skip; the percentage is
  -- the sum of the thresholds' deltas, in 64-bit arithmetic, brought into -100..900; and the charges
  -- are those of the notes, in order.
  pub evaluate_prior-deliveries :
      (entries : List PriorVerdict) (p : Profile F) (phase : String)
      → let a = evaluate_prior entries (some p) counters phase in
        let ds = of_verdicts p.prior phase p.request.enabled entries in
        (a.skip ≡ any is_skip ds)
        × (a.percent ≡ clamp_percent (sum_deltas (pos 0) ds))
        × (a.notes ≡ all_charges counters ds)
        × (percent_min ≤ℤ a.percent)
        × (a.percent ≤ℤ percent_max)
  unfolding evaluate_prior
  evaluate_prior-deliveries entries p phase =
      let ds = of_verdicts p.prior phase p.request.enabled entries in
      let e =
        view-deliver_verdicts p.prior phase p.request.enabled no_ask entries
        ∙ take_deliveries_lem counters (false, pos 0, []) ds in
      (
        ap (λ (v : View). v.0) e,
        ap (λ (v : View). clamp_percent v.1) e,
        ap (λ (v : View). v.2) e,
        ground arith,
        ground arith,
      )
