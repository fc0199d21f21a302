-- ===== src/Config/Outcome.antt =====
-- internal/config/profile.go: what an outcome is and when it fires.
use placitum_counter.Prelude.{
  Bool, List, Option, String, [], beq_ℤ, false, if◌then◌else◌, leb_ℤ, ltb_ℤ, map_get, none, not,
  some, true, ℤ, ◌&&◌, ◌==◌, ◌||◌, ◌∷◌,
}
use placitum_counter.Prelude.Float.{Float64}
use placitum_counter.Protocol.{verdict_allow, verdict_score, verdict_deny}
use placitum_counter.Config.Types.{Outcome}
use placitum_counter.Overload

abbrev pub on_deny : String
on_deny = "deny"

abbrev pub on_allow : String
on_allow = "allow"

abbrev pub on_score : String
on_score = "score"

abbrev pub on_level : String
on_level = "level"

abbrev pub on_overload : String
on_overload = Overload.on

-- `Outcome.Asks`
unfoldable pub asks : Outcome → Bool
asks o = not (o.verb == "")

abbrev pub is_some {ℓ} : {A : Type ℓ} → Option A → Bool
is_some none = false
is_some (some a) = true

-- `Outcome.OnBucket`
unfoldable pub on_bucket : Outcome → Bool
on_bucket o = o.on == on_level && is_some o.bucket

-- `Outcome.Subject`
unfoldable pub subject : Outcome → String
subject o = if o.write == "" then "addr" else o.write

module _ {F : Type 0} ⦃fl : Float64 F⦄ where
  -- `Outcome.MatchesLevel`; `none` stands for `ok` being false.
  unfoldable pub matches_level : Outcome → Option F → Bool
  unfolding on_bucket
  matches_level o none = false
  matches_level o (some percent) = elim o.at [
    | none ↦ false
    | some at ↦
        on_bucket o
        && (if o.below then fl.lt percent (fl.of_int at) else fl.le (fl.of_int at) percent)
  ]

-- The `OnScore` case of `Outcome.Matches`, on `o.At`.
unfoldable pub matches_score : Outcome → Option ℤ → ℤ → Bool
matches_score o none score = false
matches_score o (some at) score =
    if o.eq then beq_ℤ score at else if o.below then ltb_ℤ score at else leb_ℤ at score

-- `Outcome.Matches`
unfoldable pub matches : Outcome → String → ℤ → Bool
unfolding matches_score
matches o verdict score =
    if o.on == on_allow
    then verdict == verdict_allow
    else if o.on == on_deny
    then verdict == verdict_deny
    else if o.on == on_score
    then verdict == verdict_score && matches_score o o.at score
    else false

-- `outcomeVerbs`: the axes that each verb takes.
abbrev pub outcome_verbs : List (String × List String)
outcome_verbs =
    ("challenge", "request" ∷ [])
    ∷ ("threshold", "request" ∷ [])
    ∷ ("skip", "request" ∷ [])
    ∷ ("mutate", "request" ∷ [])
    ∷ ("reauth", "session" ∷ [])
    ∷ ("note", "request" ∷ "ip" ∷ "asn" ∷ "session" ∷ [])
    ∷ ("active", "request" ∷ "conn" ∷ [])
    ∷ ("passive", "request" ∷ "conn" ∷ [])
    ∷ ("off", "request" ∷ "conn" ∷ [])
    ∷ ("vote", "request" ∷ "conn" ∷ [])
    ∷ ("audit", "request" ∷ "response" ∷ [])
    ∷ ("archive", "request" ∷ "response" ∷ [])
    ∷ ("mark", "request" ∷ [])
    ∷ ("score", "request" ∷ [])
    ∷ []

unfoldable pub audit_verb : String → Bool
audit_verb verb = verb == "audit" || verb == "archive"

unfoldable pub record_verb : String → Bool
unfolding audit_verb
record_verb verb = audit_verb verb || verb == "mark" || verb == "score"

unfoldable pub control_verb : String → Bool
control_verb verb = verb == "active" || verb == "passive" || verb == "off" || verb == "vote"

-- `axes[0]`, where the verb has one axis or is `audit` or `archive`.
abbrev default_axis : Bool → Option (List String) → String
default_axis audits none = ""
default_axis audits (some []) = ""
default_axis audits (some (a ∷ [])) = a
default_axis audits (some (a ∷ b ∷ rest)) = if audits then a else ""

-- `Outcome.Axis`
unfoldable pub axis : Outcome → String
unfolding audit_verb map_get
axis o =
    if o.apply == ""
    then default_axis (audit_verb o.verb) (map_get o.verb outcome_verbs)
    else o.apply
