-- ===== src/Decide/Prior/Deliveries.antt =====
-- internal/decide/prior.go: the deliveries that rules make of the actions of the neighbours.
use placitum_counter.Prelude.{
  Bool, List, String, [], add64, any, append-nil, append_assoc, beq_ℤ, if◌then◌else◌, map, not,
  or-false, or_assoc, pos, refl, select, sym, ℤ, ◌&&◌, ◌++◌, ◌==◌, ◌||◌, ◌∙◌, ◌∷◌, ◌≡◌,
}
use placitum_counter.Protocol.{Action, PriorVerdict, scope}
use placitum_counter.Config.Types.{PriorRule, Counters}
use placitum_counter.Config.Counters.{note_axes}
use placitum_counter.Decide.Prior.{NoteCharge, Ask, charge_here, note_charge, takes}

-- An action of a sender that a rule takes.
pub record Delivery : Type 0 where
  pub from : String
  pub act : Action
  pub rule : PriorRule

abbrev pub delivery : String → Action → PriorRule → Delivery
delivery from act r = record { from = from; act = act; rule = r }

-- One delivery for each rule that takes the action.
unfoldable pub of_action : List PriorRule → String → Action → List Delivery
of_action rules from act = map (delivery from act) (select (takes from act) rules)

unfoldable pub of_actions :
    List PriorRule → String → Bool → PriorVerdict → List Action → List Delivery
of_actions rules phase enabled v [] = []
of_actions rules phase enabled v (act ∷ acts) =
    (if act.verb == "note" && not (charge_here v.phase phase enabled)
      then []
      else of_action rules v.inspector act)
    ++ of_actions rules phase enabled v acts

-- The deliveries of all verdicts, in order; a note counts in its phase only.
unfoldable pub of_verdicts : List PriorRule → String → Bool → List PriorVerdict → List Delivery
of_verdicts rules phase enabled [] = []
of_verdicts rules phase enabled (v ∷ vs) =
    of_actions rules phase enabled v v.actions ++ of_verdicts rules phase enabled vs

unfoldable pub is_skip : Delivery → Bool
is_skip d = d.act.verb == "skip"

-- The sum of the deltas that thresholds ask for, as Go adds them.
unfoldable pub sum_deltas : ℤ → List Delivery → ℤ
sum_deltas acc [] = acc
sum_deltas acc (d ∷ ds) =
    sum_deltas (if d.act.verb == "threshold" then add64 acc d.act.delta else acc) ds

module _ {F : Type 0} where
  -- The charges of one note: one for each axis of its counter that the note reaches.
  unfoldable pub charges : Counters F → Delivery → List NoteCharge
  charges counters d =
      if d.act.verb == "note" && not (beq_ℤ d.act.value (pos 0))
      then map (note_charge d.from d.rule d.act) (note_axes counters d.rule.counter (scope d.act))
      else []

  unfoldable pub all_charges : Counters F → List Delivery → List NoteCharge
  all_charges counters [] = []
  all_charges counters (d ∷ ds) = charges counters d ++ all_charges counters ds

abbrev pub View : Type 0
View = Bool × ℤ × List NoteCharge

abbrev pub view : Ask → View
view a = (a.skip, a.percent, a.notes)

module _ {F : Type 0} (counters : Counters F) where
  unfoldable pub take_delivery : View → Delivery → View
  take_delivery v d = (
    v.0 || is_skip d,
    (if d.act.verb == "threshold" then add64 v.1 d.act.delta else v.1),
    v.2 ++ charges counters d,
  )

  unfoldable pub take_deliveries : View → List Delivery → View
  take_deliveries v [] = v
  take_deliveries v (d ∷ ds) = take_deliveries (take_delivery v d) ds

  pub take_deliveries-append :
      (v : View) (xs ys : List Delivery)
      → take_deliveries v (xs ++ ys) ≡ take_deliveries (take_deliveries v xs) ys
  unfolding take_deliveries
  take_deliveries-append v [] ys = refl
  take_deliveries-append v (x ∷ xs) ys = take_deliveries-append (take_delivery v x) xs ys

  pub take_deliveries_lem :
      (v : View) (ds : List Delivery)
      → take_deliveries v ds
        ≡ (v.0 || any is_skip ds, sum_deltas v.1 ds, v.2 ++ all_charges counters ds)
  unfolding take_deliveries any sum_deltas all_charges
  take_deliveries_lem v [] = λ i. (sym (or-false v.0) i, v.1, sym (append-nil v.2) i)
  take_deliveries_lem v (d ∷ ds) =
      take_deliveries_lem (take_delivery v d) ds
      ∙ (unfold take_delivery in
          λ i. (
            or_assoc v.0 (is_skip d) (any is_skip ds) i,
            sum_deltas (if d.act.verb == "threshold" then add64 v.1 d.act.delta else v.1) ds,
            append_assoc v.2 (charges counters d) (all_charges counters ds) i,
          ))
