-- ===== src/Config/Validate/AskSound.antt =====
-- internal/config/profile.go: the asks that `validateOutcomeAsk` accepts.
use mathlib.Core.Bool.{true≢false}
use placitum_counter.Prelude.{
  >>-IsOk, Bool, IsOk, List, Option, String, and-eq-false, ap, arith, beq_ℤ, contains, eq_iff,
  eq_refl, fail_if->>-IsOk, fail_if-IsOk, false, map_get, negsuc, none, not, not-eq-false, pos,
  some, true, ℤ, ◌&&◌, ◌==◌, ◌||◌, ◌∙◌, ◌≡◌, ◌≤ℤ◌,
}
use placitum_counter.Config.Types.{Outcome}
use placitum_counter.Config.Outcome.{audit_verb, control_verb, outcome_verbs}
use placitum_counter.Config.Names.{name_re}
use placitum_counter.Protocol.Checks.{check_marker}
use placitum_counter.Config.Validate.Asks.{
  below, above, no_value, check_apply, check_values, check_score_verb, check_counter, check_mutate,
  check_mark, check_objects, check_audit, validate_outcome_ask,
}

-- A number that is given, and is not 0.
abbrev pub IsNonzero : Option ℤ → Type 0
IsNonzero none = ⊥
IsNonzero (some v) = beq_ℤ v (pos 0) ≡ false

-- A number that is given is within bounds.
abbrev pub IsWithin : ℤ → ℤ → Option ℤ → Type 0
IsWithin low high none = Unit
IsWithin low high (some v) = (low ≤ℤ v) × (v ≤ℤ high)

-- The axis that an ask gives is one of its verb's.
abbrev pub IsAxisOf : Option (List String) → String → Type 0
IsAxisOf none apply = ⊥
IsAxisOf (some axes) apply = (apply == "" || contains axes apply) ≡ true

-- An ask has a verb that exists and the arguments that its verb needs.
pub record IsValidAsk (o : Outcome) : Type 0 where
  pub verb_axis : IsAxisOf (map_get o.verb outcome_verbs) o.apply
  pub recipient : control_verb o.verb ≡ true → (o.to == "") ≡ false
  pub delta : IsWithin (negsuc 99) (pos 900) o.delta
  pub value : IsWithin (negsuc 99) (pos 100) o.value
  pub threshold : o.verb ≡ "threshold" → IsNonzero o.delta
  pub note : o.verb ≡ "note" → IsNonzero o.value
  pub score : o.verb ≡ "score" → IsNonzero o.value
  pub counter : (o.counter == "") ≡ false → (o.verb ≡ "note") × (name_re o.counter ≡ true)
  pub mutate :
      o.verb ≡ "mutate" → (name_re o.group ≡ true) × ((o.set == "on" || o.set == "off") ≡ true)
  pub mark : o.verb ≡ "mark" → ((o.marker == "") ≡ false) × IsOk (check_marker o.marker)
  pub records : audit_verb o.verb ≡ true → (o.set == "on" || o.set == "off") ≡ true

no_value-eq-false : (v : Option ℤ) → no_value v ≡ false → IsNonzero v
no_value-eq-false none h = true≢false h
no_value-eq-false (some v) h = h

within : (low high : ℤ) (v : Option ℤ) → (below low v || above high v) ≡ false → IsWithin low high v
within low high none h = tt
within low high (some v) h = ground arith

axis_accepted :
    (o : Outcome) (axes : Option (List String)) → IsOk (check_apply o axes) → IsAxisOf axes o.apply
unfolding check_apply
axis_accepted o none h = absurd h
axis_accepted o (some axes) h =
    let given =
      fail_if->>-IsOk (not (o.apply == "") && not (contains axes o.apply))
        "%s: verb %q does not take apply %q" _ h in
    ground (arith, given.0)

marker_given : (marker : String) → IsOk (check_marker marker) → (marker == "") ≡ false
unfolding check_marker
marker_given marker h = (fail_if->>-IsOk _ _ _ h).0

-- A test that an equation decides.
when_verb : (v w : String) (b : Bool) → v ≡ w → (v == w && b) ≡ false → b ≡ false
when_verb v w b e h = and-eq-false (v == w) b h (ap (λ s. s == w) e ∙ eq_refl w)

verb_is : (v w : String) → v ≡ w → (v == w) ≡ true
verb_is v w e = ap (λ s. s == w) e ∙ eq_refl w

module _ (o : Outcome) (h : IsOk (validate_outcome_ask o)) where
  checks :
      IsOk (check_apply o (map_get o.verb outcome_verbs))
      × ((control_verb o.verb && o.to == "") ≡ false)
      × IsOk (check_values o)
      × IsOk (check_score_verb o)
      × IsOk (check_counter o)
      × IsOk (check_mutate o)
      × IsOk (check_mark o)
      × IsOk (check_objects o)
  unfolding validate_outcome_ask
  checks =
      let a = fail_if->>-IsOk _ _ _ h in
      let b = >>-IsOk _ _ a.1 in
      let c = fail_if->>-IsOk _ _ _ b.1 in
      let d = >>-IsOk _ _ c.1 in
      let e = >>-IsOk _ _ d.1 in
      let f = >>-IsOk _ _ e.1 in
      let g = >>-IsOk _ _ f.1 in
      let i = >>-IsOk _ _ g.1 in let j = >>-IsOk _ _ i.1 in (b.0, c.0, e.0, f.0, g.0, i.0, j.0, j.1)

  values_lem :
      IsWithin (negsuc 99) (pos 900) o.delta
      × IsWithin (negsuc 99) (pos 100) o.value
      × ((o.verb == "threshold" && no_value o.delta) ≡ false)
      × ((o.verb == "note" && no_value o.value) ≡ false)
  unfolding check_values
  values_lem =
      let a = fail_if->>-IsOk _ _ _ checks.2 in
      let b = fail_if->>-IsOk _ _ _ a.1 in
      let c = fail_if->>-IsOk _ _ _ b.1 in
      (
        within (negsuc 99) (pos 900) o.delta a.0,
        within (negsuc 99) (pos 100) o.value b.0,
        c.0,
        fail_if-IsOk _ _ c.1,
      )

  score_lem : o.verb ≡ "score" → IsNonzero o.value
  unfolding check_score_verb
  score_lem e =
      let c = checks.3 in
      let a = fail_if->>-IsOk _ _ _ (rw (verb_is o.verb "score" e) at c) in
      no_value-eq-false o.value (fail_if-IsOk _ _ a.1)

  counter_lem : (o.counter == "") ≡ false → (o.verb ≡ "note") × (name_re o.counter ≡ true)
  unfolding check_counter
  counter_lem e =
      let c = checks.4 in
      let a = fail_if->>-IsOk _ _ _ (rw e at c) in
      ((eq_iff o.verb "note").0 (not-eq-false _ a.0), not-eq-false _ (fail_if-IsOk _ _ a.1))

  mutate_lem :
      o.verb ≡ "mutate" → (name_re o.group ≡ true) × ((o.set == "on" || o.set == "off") ≡ true)
  unfolding check_mutate
  mutate_lem e =
      let c = checks.5 in
      let a = fail_if->>-IsOk _ _ _ (rw (verb_is o.verb "mutate" e) at c) in
      let b = fail_if->>-IsOk _ _ _ a.1 in
      (not-eq-false _ b.0, not-eq-false _ (fail_if-IsOk _ _ b.1))

  mark_lem : o.verb ≡ "mark" → ((o.marker == "") ≡ false) × IsOk (check_marker o.marker)
  unfolding check_mark
  mark_lem e =
      let c = checks.6 in
      let accepted = (fail_if->>-IsOk _ _ _ (rw (verb_is o.verb "mark" e) at c)).1 in
      (marker_given o.marker accepted, accepted)

  records_lem : audit_verb o.verb ≡ true → (o.set == "on" || o.set == "off") ≡ true
  unfolding check_objects check_audit
  records_lem e =
      let c = checks.7 in
      let a = fail_if->>-IsOk _ _ _ (rw e at c) in not-eq-false _ (fail_if->>-IsOk _ _ _ a.1).0

  pub validate_outcome_ask-IsValidAsk : IsValidAsk o
  validate_outcome_ask-IsValidAsk = record {
    verb_axis = axis_accepted o (map_get o.verb outcome_verbs) checks.0;
    recipient = λ e. and-eq-false _ _ checks.1 e;
    delta = values_lem.0;
    value = values_lem.1;
    threshold = λ e. no_value-eq-false o.delta (when_verb o.verb _ _ e values_lem.2);
    note = λ e. no_value-eq-false o.value (when_verb o.verb _ _ e values_lem.3);
    score = score_lem;
    counter = counter_lem;
    mutate = mutate_lem;
    mark = mark_lem;
    records = records_lem;
  }
