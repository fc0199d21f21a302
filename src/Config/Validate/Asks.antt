-- ===== src/Config/Validate/Asks.antt =====
-- internal/config/profile.go: `checkPhaseAsk` and `validateOutcomeAsk`. The calls of `fmt.Errorf` in
-- the messages keep their format text.
use placitum_counter.Prelude.{
  Bool, List, Option, Result, String, [], beq_ℤ, contains, err, fail_if, false, if◌then◌else◌,
  is_empty, ltb_ℤ, map_get, negsuc, none, not, ok, pos, some, true, ℤ, ◌&&◌, ◌==◌, ◌>>◌, ◌||◌, ◌∷◌,
}
use placitum_counter.Config.Types.{Outcome}
use placitum_counter.Config.Outcome.{
  audit_verb, record_verb, control_verb, outcome_verbs, axis, is_some,
}
use placitum_counter.Config.Names.{name_re}
use placitum_counter.Protocol.Checks.{check_archive_when, check_object_spec, check_marker}

-- `checkPhaseAsk`
unfoldable pub check_phase_ask : String → String → String → Result (Unit {0})
check_phase_ask verb phase apply = if phase == "" then ok tt else do
  fail_if (not (control_verb verb)) "phase is only for active, passive, vote and off"
  fail_if (not (phase == "request" || phase == "response" || phase == "frame"))
      "phase must be request, response or frame, got %q"
  fail_if (apply == "conn" && not (phase == "frame")) "apply conn needs phase frame"

abbrev pub below : ℤ → Option ℤ → Bool
below bound none = false
below bound (some v) = ltb_ℤ v bound

abbrev pub above : ℤ → Option ℤ → Bool
above bound none = false
above bound (some v) = ltb_ℤ bound v

-- `p == nil || *p == 0`
abbrev pub no_value : Option ℤ → Bool
no_value none = true
no_value (some v) = beq_ℤ v (pos 0)

abbrev one_axis : List String → Bool
one_axis [] = false
one_axis (a ∷ []) = true
one_axis (a ∷ b ∷ rest) = false

-- The checks of a verb's axis, for a verb of `outcomeVerbs`.
unfoldable pub check_apply : Outcome → Option (List String) → Result (Unit {0})
check_apply o none = err "%s: unknown verb %q"
check_apply o (some axes) = do
  fail_if (not (o.apply == "") && not (contains axes o.apply)) "%s: verb %q does not take apply %q"
  fail_if (o.apply == "" && not (one_axis axes) && not (audit_verb o.verb)) "%s: %s needs apply"

unfoldable pub check_values : Outcome → Result (Unit {0})
check_values o = do
  fail_if (below (negsuc 99) o.delta || above (pos 900) o.delta)
      "%s: delta %d is out of -100..900 percent"
  fail_if (below (negsuc 99) o.value || above (pos 100) o.value)
      "%s: value %d is out of -100..100 percent"
  fail_if (o.verb == "threshold" && no_value o.delta) "%s: threshold needs a non-zero delta"
  fail_if (o.verb == "note" && no_value o.value) "%s: note needs a non-zero value"

-- A verb of the module's own record is sent to nobody, or to all.
abbrev to_all : String → Bool
to_all to = to == "" || to == "*"

unfoldable pub check_score_verb : Outcome → Result (Unit {0})
check_score_verb o =
    if o.verb == "score"
    then (do
      fail_if (not (to_all o.to)) "%s: %s takes no to: the module adds to the route's own sum"
      fail_if (no_value o.value) "%s: score needs a non-zero value")
    else ok tt

unfoldable pub check_counter : Outcome → Result (Unit {0})
check_counter o = if o.counter == "" then ok tt else do
  fail_if (not (o.verb == "note")) "%s: counter is only for %q"
  fail_if (not (name_re o.counter)) "%s: bad counter name %q"

unfoldable pub check_mutate : Outcome → Result (Unit {0})
check_mutate o =
    if o.verb == "mutate"
    then (do
      fail_if (o.group == "") "%s: mutate needs a group"
      fail_if (not (name_re o.group)) "%s: bad group name %q"
      fail_if (not (o.set == "on" || o.set == "off")) "%s: mutate needs set: on or off, got %q")
    else fail_if (not (o.group == "") || (not (o.set == "") && not (audit_verb o.verb)))
        "%s: group and set are only for %q"

unfoldable pub check_mark : Outcome → Result (Unit {0})
check_mark o =
    if o.verb == "mark"
    then (do
      fail_if (not (to_all o.to)) "%s: %s takes no to: the module marks the route's own record"
      check_marker o.marker)
    else fail_if (not (o.marker == "")) "%s: marker is only for %q"

abbrev to_unit : Result (List String) → Result (Unit {0})
to_unit (ok words) = ok tt
to_unit (err e) = err e

abbrev has_objects : Outcome → Bool
has_objects o = is_some o.headers || is_some o.args || is_some o.body

unfoldable pub check_audit : Outcome → Result (Unit {0})
check_audit o = do
  fail_if (not (to_all o.to)) "%s: %s takes no to: the module writes the route's own record"
  fail_if (not (o.set == "on" || o.set == "off")) "%s: %s needs set: on or off, got %q"
  fail_if (o.set == "off" && (not (beq_ℤ o.ttl (pos 0)) || not (is_empty o.when) || has_objects o))
      "%s: ttl, when and objects are only for set on"
  fail_if (o.verb == "audit" && (not (beq_ℤ o.ttl (pos 0)) || not (is_empty o.when)))
      "%s: ttl and when are only for archive"
  to_unit (check_archive_when o.when)
  fail_if (o.apply == "response" && is_some o.args)
      "%s: args has no meaning for the response record"
  check_object_spec o.headers
  check_object_spec o.args
  check_object_spec o.body

unfoldable pub check_objects : Outcome → Result (Unit {0})
check_objects o =
    if audit_verb o.verb
    then check_audit o
    else fail_if (not (is_empty o.when) || has_objects o)
        "%s: when, headers, args and body are only for audit and archive"

-- `validateOutcomeAsk`
unfoldable pub validate_outcome_ask : Outcome → Result (Unit {0})
validate_outcome_ask o = do
  fail_if (o.on == "deny" && not (record_verb o.verb))
      "%s: deny ends the phase, an ask has nowhere to go"
  check_apply o (map_get o.verb outcome_verbs)
  fail_if (control_verb o.verb && o.to == "") "%s: %s needs to"
  check_phase_ask o.verb o.phase (axis o)
  check_values o
  check_score_verb o
  check_counter o
  check_mutate o
  check_mark o
  check_objects o
