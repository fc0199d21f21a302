-- ===== src/Decide/Prior.antt =====
-- internal/decide/prior.go: the requests of the neighbours that judged before.
use placitum_counter.Prelude.{
  Bool, List, Option, String, [], add64, beq_ℤ, codes, contains, false, if◌then◌else◌, is_empty,
  ltb_ℤ, map, negsuc, none, not, pos, some, true, ℤ, ◌&&◌, ◌++◌, ◌==◌, ◌∷◌,
}
use placitum_counter.Protocol.{Action, PriorVerdict, scope, phase_request, phase_response}
use placitum_counter.Config.Types.{PriorRule, Profile, Counters}
use placitum_counter.Config.Counters.{note_axes}
pub mod Deliveries
pub mod Percent
pub mod Charges
pub mod Noted

abbrev pub percent_min : ℤ
percent_min = negsuc 99

abbrev pub percent_max : ℤ
percent_max = pos 900

pub record NoteCharge : Type 0 where
  pub counter : String
  pub axis : String
  pub percent : ℤ
  pub code : String
  pub from : String

pub record ActionOutcome : Type 0 where
  pub from : String
  pub verb : String
  pub apply : String
  pub code : String
  pub delta : ℤ
  pub value : ℤ
  pub counter : String
  pub took : ℤ
  pub outcome : String

pub record Ask : Type 0 where
  pub skip : Bool
  pub percent : ℤ
  pub notes : List NoteCharge
  pub outcomes : List ActionOutcome

abbrev pub no_ask : Ask
no_ask = record { skip = false; percent = pos 0; notes = []; outcomes = [] }

-- `PriorRule.Accepts`
unfoldable pub accepts : PriorRule → String → Bool
accepts r verb = contains r.accept verb

-- `PriorRule.WantsAxis`
unfoldable pub wants_axis : PriorRule → String → Bool
wants_axis r axis = if is_empty r.apply then true else contains r.apply axis

-- `PriorRule.WantsCode`
unfoldable pub wants_code : PriorRule → String → Bool
wants_code r code = if is_empty r.codes then true else contains r.codes code

-- `chargeHere`
unfoldable pub charge_here : String → String → Bool → Bool
charge_here recorded phase request_enabled =
    let r = if recorded == "" then phase_request else recorded in
    if r == phase
    then true
    else phase == phase_response && r == phase_request && not request_enabled

-- `ActionOutcome.apply`
abbrev pub apply : ActionOutcome → ℤ → ActionOutcome
apply o took = record o { outcome = "applied"; took = add64 o.took took }

-- `ActionOutcome.noCounter`
abbrev pub no_counter : ActionOutcome → ActionOutcome
no_counter o = if o.outcome == "no_rule" then record o { outcome = "no_counter" } else o

unfoldable pub note_charge : String → PriorRule → Action → String → NoteCharge
note_charge from r act axis = record {
  counter = r.counter;
  axis = axis;
  percent = act.value;
  code = act.code;
  from = from;
}

-- The guards of the loop of `deliver`: whether a rule takes an action of a sender.
unfoldable pub takes : String → Action → PriorRule → Bool
takes from act r =
    r.from == from
    && accepts r act.verb
    && wants_axis r (scope act)
    && wants_code r act.code
    && not (act.verb == "note" && not (act.counter == "") && not (act.counter == r.counter))

abbrev pub new_outcome : String → Action → ActionOutcome
new_outcome from act = record {
  from = from;
  verb = act.verb;
  apply = scope act;
  code = act.code;
  delta = act.delta;
  value = act.value;
  counter = act.counter;
  took = pos 0;
  outcome = "no_rule";
}

-- The two bounds at the end of `EvaluatePrior`.
abbrev pub clamp_percent : ℤ → ℤ
clamp_percent percent =
    let low = if ltb_ℤ percent percent_min then percent_min else percent in
    if ltb_ℤ percent_max low then percent_max else low

module _ {F : Type 0} where
  -- `Ask.note`
  unfoldable pub note :
      Counters F → PriorRule → Action → String → Ask × ActionOutcome → Ask × ActionOutcome
  unfolding note_charge
  note counters r act from (a, out) =
      let axes = note_axes counters r.counter (scope act) in
      if beq_ℤ act.value (pos 0)
      then (a, apply out (pos 0))
      else if is_empty axes
      then (a, no_counter out)
      else (record a { notes = a.notes ++ map (note_charge from r act) axes }, apply out act.value)

  -- The `switch` of `deliver`.
  unfoldable pub deliver_rule :
      Counters F → PriorRule → Action → String → Ask × ActionOutcome → Ask × ActionOutcome
  unfolding note
  deliver_rule counters r act from (a, out) =
      if act.verb == "skip"
      then (record a { skip = true }, apply out (pos 0))
      else if act.verb == "threshold"
      then (record a { percent = add64 a.percent act.delta }, apply out act.delta)
      else if act.verb == "note"
      then note counters r act from (a, out)
      else (a, out)

  unfoldable pub deliver_rules :
      Counters F → List PriorRule → Action → String → Ask × ActionOutcome → Ask × ActionOutcome
  unfolding takes deliver_rule
  deliver_rules counters [] act from s = s
  deliver_rules counters (r ∷ rs) act from s =
      deliver_rules counters rs act from
        (if takes from act r then deliver_rule counters r act from s else s)

  -- `Ask.deliver`
  unfoldable pub deliver : Counters F → List PriorRule → String → Ask → Action → Ask
  unfolding deliver_rules
  deliver counters rules from a act =
      let (a', out) = deliver_rules counters rules act from (a, new_outcome from act) in
      record a' { outcomes = a'.outcomes ++ (out ∷ []) }

  -- The actions of one verdict; a note that is charged in another phase is passed over.
  unfoldable pub deliver_actions :
      Counters F → List PriorRule → String → Bool → PriorVerdict → Ask → List Action → Ask
  unfolding deliver
  deliver_actions counters rules phase enabled v a [] = a
  deliver_actions counters rules phase enabled v a (act ∷ acts) =
      deliver_actions counters rules phase enabled v
        (if act.verb == "note" && not (charge_here v.phase phase enabled)
          then a
          else deliver counters rules v.inspector a act)
        acts

  unfoldable pub deliver_verdicts :
      Counters F → List PriorRule → String → Bool → Ask → List PriorVerdict → Ask
  unfolding deliver_actions
  deliver_verdicts counters rules phase enabled a [] = a
  deliver_verdicts counters rules phase enabled a (v ∷ vs) =
      deliver_verdicts counters rules phase enabled
        (deliver_actions counters rules phase enabled v a v.actions) vs

  -- `EvaluatePrior`; `none` is a nil profile.
  unfoldable pub evaluate_prior : List PriorVerdict → Option (Profile F) → Counters F → String → Ask
  unfolding deliver_verdicts
  evaluate_prior entries none counters phase = no_ask
  evaluate_prior entries (some p) counters phase =
      let a = deliver_verdicts counters p.prior phase p.request.enabled no_ask entries in
      record a { percent = clamp_percent a.percent }
