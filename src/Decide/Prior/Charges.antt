-- ===== src/Decide/Prior/Charges.antt =====
-- internal/decide/prior.go: in which phase the notes of the request phase are collected.
use placitum_counter.Prelude.{Bool, List, if◌then◌else◌, not, ◌&&◌, ◌==◌, ◌≡◌, ◌⊎◌}
use placitum_counter.Protocol.{Action, PriorVerdict, phase_request}
use placitum_counter.Config.Types.{PriorRule, Counters}
use placitum_counter.Decide.Prior.{Ask, deliver}

-- A verdict of the request phase; an empty phase counts as the request phase.
abbrev pub OfRequest : PriorVerdict → Type 0
OfRequest v = (v.phase ≡ "") ⊎ (v.phase ≡ phase_request)

module _ {F : Type 0} (counters : Counters F) where
  -- The ask after an action, unless it is a note that is charged elsewhere.
  abbrev step : List PriorRule → PriorVerdict → Ask → Action → Bool → Ask
  step rules v a act here =
      if act.verb == "note" && not here then a else deliver counters rules v.inspector a act
