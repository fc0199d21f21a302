-- ===== src/Decide/Prior/Noted.antt =====
-- internal/decide/prior.go: where the notes of an ask come from.
use placitum_counter.Prelude.{
  All, All-append, All-imp, Bool-cases, List, String, [], and-eq-false, and-eq-true, beq_ℤ,
  contains, eq_iff, eq_refl, false, if◌then◌else◌, inl, inr, is_empty, map, not, not-eq-false, pos,
  refl, some, sym, true, ◌&&◌, ◌==◌, ◌∙◌, ◌∷◌, ◌≡◌,
}
use mathlib.Core.List.{Memᴰ}
use placitum_counter.Protocol.{Action, PriorVerdict, scope}
use placitum_counter.Config.Types.{PriorRule, Profile, Counters}
use placitum_counter.Config.Counters.{has_axis, note_axes}
use placitum_counter.Config.Counters.Axes.{belongs, contains-note_axes}
use placitum_counter.Decide.Prior.{
  Ask, ActionOutcome, NoteCharge, no_ask, charge_here, takes, new_outcome, note, note_charge,
  deliver_rule, deliver_rules, deliver, deliver_actions, deliver_verdicts, evaluate_prior,
}

contained_all {κ} :
    (P : String → Type κ) (xs : List String)
    → ((x : String) → contains xs x ≡ true → P x)
    → All P xs
unfolding contains
contained_all P [] h = tt
contained_all P (x ∷ xs) h = (
  h x (rw (eq_refl x) refl),
  contained_all P xs (λ y found. elim (Bool-cases (x == y)) [
    | inl same ↦ h y (rw same refl)
    | inr other ↦ h y (rw other found)
  ]),
)

All-map {ℓ κ μ} :
    {A : Type ℓ} {B : Type κ} (P : B → Type μ) (f : A → B) (xs : List A)
    → All (λ x. P (f x)) xs
    → All P (map f xs)
All-map P f [] h = tt
All-map P f (x ∷ xs) h = (h.0, All-map P f xs h.1)

-- Every element of a list stands in it.
all_members {ℓ} : {A : Type ℓ} (xs : List A) → All (λ x. Memᴰ x xs) xs
all_members [] = tt
all_members (x ∷ xs) = (
  Memᴰ.head refl,
  All-imp (λ y. Memᴰ y xs) (λ y. Memᴰ y (x ∷ xs)) (λ y m. Memᴰ.tail m) xs (all_members xs),
)

-- The verdict, the action and the rule that a note charge comes from.
pub record IsNoted {F : Type 0} (counters : Counters F) (p : Profile F) (phase : String)
    (entries : List PriorVerdict) (n : NoteCharge) : Type 0 where
  pub verdict : PriorVerdict
  pub action : Action
  pub rule : PriorRule
  pub of_entries : Memᴰ verdict entries
  pub of_verdict : Memᴰ action verdict.actions
  pub of_profile : Memᴰ rule p.prior
  pub taken : takes verdict.inspector action rule ≡ true
  pub is_note : action.verb ≡ "note"
  pub here : charge_here verdict.phase phase p.request.enabled ≡ true
  pub of_sender : n.from ≡ verdict.inspector
  pub counter : n.counter ≡ rule.counter
  pub percent : n.percent ≡ action.value
  pub nonzero : beq_ℤ n.percent (pos 0) ≡ false
  pub axis : belongs n.axis (scope action) ≡ true
  pub declared : has_axis counters n.counter n.axis ≡ true

module _ {F : Type 0} (counters : Counters F) (p : Profile F) (phase : String)
    (entries : List PriorVerdict) where
  abbrev AllNoted : Ask → Type 0
  AllNoted a = All (IsNoted counters p phase entries) a.notes

  -- An action of a verdict, whose notes are charged in the phase.
  record IsDelivered (v : PriorVerdict) (act : Action) : Type 0 where
    of_entries : Memᴰ v entries
    of_verdict : Memᴰ act v.actions
    here : (act.verb == "note") ≡ true → charge_here v.phase phase p.request.enabled ≡ true

  module _ (v : PriorVerdict) (act : Action) (d : IsDelivered v act) where
    charged-IsNoted :
        (r : PriorRule) (axis : String)
        → Memᴰ r p.prior
        → takes v.inspector act r ≡ true
        → (act.verb == "note") ≡ true
        → beq_ℤ act.value (pos 0) ≡ false
        → contains (note_axes counters r.counter (scope act)) axis ≡ true
        → IsNoted counters p phase entries (note_charge v.inspector r act axis)
    unfolding note_charge
    charged-IsNoted r axis m taken is_note nonzero found =
        let both =
          and-eq-true _ _ (sym (contains-note_axes counters r.counter (scope act) axis) ∙ found) in
        record {
          verdict = v;
          action = act;
          rule = r;
          of_entries = d.of_entries;
          of_verdict = d.of_verdict;
          of_profile = m;
          taken = taken;
          is_note = (eq_iff act.verb "note").0 is_note;
          here = d.here is_note;
          of_sender = refl;
          counter = refl;
          percent = refl;
          nonzero = nonzero;
          axis = both.0;
          declared = both.1;
        }

    note-AllNoted :
        (r : PriorRule) (s : Ask × ActionOutcome)
        → Memᴰ r p.prior
        → takes v.inspector act r ≡ true
        → (act.verb == "note") ≡ true
        → AllNoted s.0
        → AllNoted (note counters r act v.inspector s).0
    unfolding note
    note-AllNoted r (a, out) m taken is_note h =
        let axes = note_axes counters r.counter (scope act) in
        elim (Bool-cases (beq_ℤ act.value (pos 0))) [
          | inl e ↦ rw e h
          | inr nonzero ↦ elim (Bool-cases (is_empty axes)) [
            | inl bare ↦ rw (nonzero, bare) h
            | inr some_axes ↦
                rw (nonzero, some_axes)
                  (All-append (IsNoted counters p phase entries) a.notes _ h (
                    All-map (IsNoted counters p phase entries) (note_charge v.inspector r act) axes
                      (contained_all _ axes
                        (λ axis found. charged-IsNoted r axis m taken is_note nonzero found))))
          ]
        ]

    deliver_rule-AllNoted :
        (r : PriorRule) (s : Ask × ActionOutcome)
        → Memᴰ r p.prior
        → takes v.inspector act r ≡ true
        → AllNoted s.0
        → AllNoted (deliver_rule counters r act v.inspector s).0
    unfolding deliver_rule
    deliver_rule-AllNoted r (a, out) m taken h = elim (Bool-cases (act.verb == "skip")) [
      | inl e ↦ rw e h
      | inr e ↦ elim (Bool-cases (act.verb == "threshold")) [
        | inl f ↦ rw (e, f) h
        | inr f ↦ elim (Bool-cases (act.verb == "note")) [
          | inl g ↦ rw (e, f, g) (note-AllNoted r (a, out) m taken g h)
          | inr g ↦ rw (e, f, g) h
        ]
      ]
    ]

    taken-AllNoted :
        (r : PriorRule) (s : Ask × ActionOutcome)
        → Memᴰ r p.prior
        → AllNoted s.0
        → AllNoted
            (if takes v.inspector act r then deliver_rule counters r act v.inspector s else s).0
    taken-AllNoted r s m h = elim (Bool-cases (takes v.inspector act r)) [
      | inl taken ↦ rw taken (deliver_rule-AllNoted r s m taken h)
      | inr other ↦ rw other h
    ]

    deliver_rules-AllNoted :
        (rules : List PriorRule) (s : Ask × ActionOutcome)
        → All (λ r. Memᴰ r p.prior) rules
        → AllNoted s.0
        → AllNoted (deliver_rules counters rules act v.inspector s).0
    unfolding deliver_rules
    deliver_rules-AllNoted [] s m h = h
    deliver_rules-AllNoted (r ∷ rs) s m h =
        let next =
          if takes v.inspector act r then deliver_rule counters r act v.inspector s else s in
        deliver_rules-AllNoted rs next m.1 (taken-AllNoted r s m.0 h)

    deliver-AllNoted :
        (a : Ask) → AllNoted a → AllNoted (deliver counters p.prior v.inspector a act)
    unfolding deliver
    deliver-AllNoted a h =
        deliver_rules-AllNoted p.prior (a, new_outcome v.inspector act) (all_members p.prior) h

  abbrev step : PriorVerdict → Ask → Action → Ask
  step v a act =
      if act.verb == "note" && not (charge_here v.phase phase p.request.enabled)
      then a
      else deliver counters p.prior v.inspector a act

  step-AllNoted :
      (v : PriorVerdict) (act : Action) (a : Ask)
      → Memᴰ v entries
      → Memᴰ act v.actions
      → AllNoted a
      → AllNoted (step v a act)
  step-AllNoted v act a m k h =
      elim (Bool-cases (act.verb == "note" && not (charge_here v.phase phase p.request.enabled))) [
        | inl away ↦ rw away h
        | inr stays ↦ rw stays (
            deliver-AllNoted v act
              (record {
                of_entries = m;
                of_verdict = k;
                here = λ e. not-eq-false _ (and-eq-false _ _ stays e);
              })
              a h)
      ]

  deliver_actions-AllNoted :
      (v : PriorVerdict) (acts : List Action) (a : Ask)
      → Memᴰ v entries
      → All (λ act. Memᴰ act v.actions) acts
      → AllNoted a
      → AllNoted (deliver_actions counters p.prior phase p.request.enabled v a acts)
  unfolding deliver_actions
  deliver_actions-AllNoted v [] a m k h = h
  deliver_actions-AllNoted v (act ∷ acts) a m k h =
      deliver_actions-AllNoted v acts (step v a act) m k.1 (step-AllNoted v act a m k.0 h)

  deliver_verdicts-AllNoted :
      (vs : List PriorVerdict) (a : Ask)
      → All (λ v. Memᴰ v entries) vs
      → AllNoted a
      → AllNoted (deliver_verdicts counters p.prior phase p.request.enabled a vs)
  unfolding deliver_verdicts
  deliver_verdicts-AllNoted [] a m h = h
  deliver_verdicts-AllNoted (v ∷ vs) a m h =
      deliver_verdicts-AllNoted vs
        (deliver_actions counters p.prior phase p.request.enabled v a v.actions) m.1
        (deliver_actions-AllNoted v v.actions a m.0 (all_members v.actions) h)

-- Every note charge that `EvaluatePrior` collects comes from a note of a verdict, which a rule of the
-- profile takes and which is charged in this phase. It has the rule's counter, the sender's name and
-- the note's percentage, which is not 0, and its axis is one that the counter declares and that belongs
-- to the note's axis of the wire.
pub evaluate_prior-IsNoted :
    {F : Type 0} (counters : Counters F) (p : Profile F) (phase : String)
    (entries : List PriorVerdict)
    → All (IsNoted counters p phase entries) (evaluate_prior entries (some p) counters phase).notes
unfolding evaluate_prior
evaluate_prior-IsNoted counters p phase entries =
    deliver_verdicts-AllNoted counters p phase entries entries no_ask (all_members entries) tt
