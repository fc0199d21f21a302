-- ===== src/Config/Validate/Outcomes.antt =====
-- internal/config/profile.go: `validateOutcome`.
use placitum_counter.Prelude.{
  Option, Result, String, contains, err, fail_if, if◌then◌else◌, leb_ℤ, none, not, pos, some, ◌&&◌,
  ◌==◌, ◌>>◌, ◌||◌,
}
use placitum_counter.Config.Types.{Outcome, OutcomeIf}
use placitum_counter.Config.Outcome.{
  on_deny, on_allow, on_score, on_level, on_overload, asks, is_some,
}
use placitum_counter.Config.Names.{name_re, check_code}
use placitum_counter.Config.Counters.{known_axes}
use placitum_counter.Config.Validate.Asks.{below, above, validate_outcome_ask}
use placitum_counter.Overload

-- `case OnDeny, OnAllow`
unfoldable pub check_on_verdict : Outcome → Result (Unit {0})
check_on_verdict o = do
  fail_if (is_some o.at) "%s: at is only for on: %s or %s"
  fail_if (o.below || o.eq) "%s: below and eq are only for on: %s or %s"

-- `case OnScore`
unfoldable pub check_on_score : Outcome → Result (Unit {0})
check_on_score o = do
  fail_if (not (is_some o.at)) "%s: on: score needs at"
  fail_if (below (pos 0) o.at || above (pos 100) o.at) "%s: at %d is out of 0..100"
  fail_if (o.below && o.eq) "%s: below and eq are mutually exclusive"

abbrev if_counter : Option OutcomeIf → String
if_counter none = ""
if_counter (some b) = b.counter

abbrev if_axis : Option OutcomeIf → String
if_axis none = ""
if_axis (some b) = b.axis

-- `case OnLevel`
unfoldable pub check_on_level : Outcome → Result (Unit {0})
check_on_level o = do
  fail_if (not (is_some o.bucket) || if_counter o.bucket == "") "%s: on: %s needs if.counter"
  fail_if (not (contains known_axes (if_axis o.bucket))) "%s: if.axis must be one of %s, got %q"
  fail_if (not (is_some o.at)) "%s: on: %s needs at"
  fail_if (below (pos 0) o.at || above (pos 100) o.at) "%s: at %d is out of 0..100 percent"
  fail_if o.eq "%s: eq is only for on: %s: a bucket level is continuous, use %q or below"

-- `case OnOverload`
unfoldable pub check_on_overload : String → Outcome → Result (Unit {0})
check_on_overload section o = do
  fail_if (not (section == "request")) "%s: on: %s is only for the request section"
  Overload.check o.at
  fail_if (o.below || o.eq) "%s: below and eq are only for on: %s or %s"

-- The `switch o.On`.
unfoldable pub check_on : String → Outcome → Result (Unit {0})
check_on section o =
    if o.on == on_deny || o.on == on_allow
    then check_on_verdict o
    else if o.on == on_score
    then check_on_score o
    else if o.on == on_level
    then check_on_level o
    else if o.on == on_overload
    then check_on_overload section o
    else err "%s: unknown on %q"

unfoldable pub check_ask_section : String → Outcome → Result (Unit {0})
check_ask_section section o = do
  validate_outcome_ask o
  fail_if (o.apply == "conn" && not (section == "frame"))
      "%s: apply conn is only for the frame section"
  fail_if (o.apply == "response" && section == "frame")
      "%s: apply response is not for the frame section: frames have no response record"

unfoldable pub check_list : Outcome → Result (Unit {0})
check_list o = do
  fail_if (o.list == "") "%s: neither do nor list"
  fail_if (not (name_re o.list)) "%s: bad dataset name %q"
  fail_if
      (not (
        o.write == ""
        || o.write == "addr"
        || o.write == "net"
        || o.write == "net_all"
        || o.write == "asn"))
      "%s: write must be %s, %s, %s or %s, got %q"
  fail_if (leb_ℤ o.ttl (pos 0)) "%s: list needs ttl"

-- `validateOutcome`
unfoldable pub validate_outcome : String → Outcome → Result (Unit {0})
validate_outcome section o = do
  check_on section o
  fail_if (is_some o.bucket && not (o.on == on_level)) "%s: if is only for on: %s"
  check_code o.code
  fail_if (asks o && not (o.list == "")) "%s: do and list are mutually exclusive"
  if asks o then check_ask_section section o else check_list o
