-- ===== src/Config/Validate/OutcomeSound.antt =====
-- internal/config/profile.go: the outcomes that `validateOutcome` accepts.
use placitum_counter.Prelude.{
  >>-IsOk, Bool-cases, IsOk, Result, String, and-eq-false, ap, eq_iff, fail_if->>-IsOk,
  fail_if-IsOk, false, if◌then◌else◌, inl, inr, leb-ltb_ℤ, leb_ℤ, ltb_ℤ, not, not-eq-false,
  or-eq-false, pos, refl, sym, true, ◌&&◌, ◌==◌, ◌∙◌, ◌≡◌, ◌≤ℤ◌,
}
use placitum_counter.Config.Types.{Outcome}
use placitum_counter.Config.Outcome.{
  on_bucket, on_level, on_overload, on_deny, on_allow, on_score, is_some, asks, record_verb,
}
use placitum_counter.Config.Names.{name_re, check_code}
use placitum_counter.Config.Validate.Asks.{validate_outcome_ask}
use placitum_counter.Config.Validate.AskSound.{IsValidAsk, validate_outcome_ask-IsValidAsk}
use placitum_counter.Config.Validate.Outcomes.{
  validate_outcome, check_on, check_on_score, check_on_level, check_on_overload, check_ask_section,
  check_list,
}
use placitum_counter.Overload

pub record IsValidOutcome (section : String) (o : Outcome) : Type 0 where
  -- An outcome on a level has its bucket and its threshold, and no other outcome has a bucket.
  pub level : (o.on == on_level) ≡ on_bucket o
  pub level_at : on_bucket o ≡ true → is_some o.at ≡ true
  -- An outcome on a score has a threshold.
  pub score_at : o.on ≡ on_score → is_some o.at ≡ true
  -- Overload outcomes belong to the request section, with a threshold of 25 to 100.
  pub overload :
      o.on ≡ on_overload
      → (section ≡ "request") × (pos 25 ≤ℤ Overload.at o.at) × (Overload.at o.at ≤ℤ pos 100)
  -- An outcome asks a neighbour or writes a list, never both.
  pub one_way : asks o ≡ (o.list == "")
  -- A list write has a name of a set and a positive time to live.
  pub list : asks o ≡ false → (name_re o.list ≡ true) × (ltb_ℤ (pos 0) o.ttl ≡ true)
  -- An ask has a verb that exists, with the arguments that the verb needs.
  pub asked : asks o ≡ true → IsValidAsk o
  -- On a deny only the verbs of the module's own record are asked.
  pub deny : o.on ≡ on_deny → asks o ≡ true → record_verb o.verb ≡ true

check_on-level :
    (section : String) (o : Outcome)
    → o.on ≡ on_level
    → IsOk (check_on section o)
    → IsOk (check_on_level o)
unfolding check_on
check_on-level section o e h =
    let a : (o.on == on_deny) ≡ false = ap (λ s. s == on_deny) e in
    let b : (o.on == on_allow) ≡ false = ap (λ s. s == on_allow) e in
    let c : (o.on == on_score) ≡ false = ap (λ s. s == on_score) e in
    let d : (o.on == on_level) ≡ true = ap (λ s. s == on_level) e in rw (a, b, c, d) at h

check_on-score :
    (section : String) (o : Outcome)
    → o.on ≡ on_score
    → IsOk (check_on section o)
    → IsOk (check_on_score o)
unfolding check_on
check_on-score section o e h =
    let a : (o.on == on_deny) ≡ false = ap (λ s. s == on_deny) e in
    let b : (o.on == on_allow) ≡ false = ap (λ s. s == on_allow) e in
    let c : (o.on == on_score) ≡ true = ap (λ s. s == on_score) e in rw (a, b, c) at h

check_on-overload :
    (section : String) (o : Outcome)
    → o.on ≡ on_overload
    → IsOk (check_on section o)
    → IsOk (check_on_overload section o)
unfolding check_on
check_on-overload section o e h =
    let a : (o.on == on_deny) ≡ false = ap (λ s. s == on_deny) e in
    let b : (o.on == on_allow) ≡ false = ap (λ s. s == on_allow) e in
    let c : (o.on == on_score) ≡ false = ap (λ s. s == on_score) e in
    let d : (o.on == on_level) ≡ false = ap (λ s. s == on_level) e in
    let f : (o.on == on_overload) ≡ true = ap (λ s. s == on_overload) e in rw (a, b, c, d, f) at h

-- The part of `validateOutcome` behind the `switch`, in its two cases.
abbrev tail : String → Outcome → Result (Unit {0})
tail section o = if asks o then check_ask_section section o else check_list o

module _ (section : String) (o : Outcome) (h : IsOk (validate_outcome section o)) where
  parts :
      IsOk (check_on section o)
      × ((is_some o.bucket && not (o.on == on_level)) ≡ false)
      × ((asks o && not (o.list == "")) ≡ false)
      × IsOk (tail section o)
  unfolding validate_outcome
  parts =
      let a = >>-IsOk (check_on section o) _ h in
      let b = fail_if->>-IsOk _ _ _ a.1 in
      let c = >>-IsOk (check_code o.code) _ b.1 in
      let d = fail_if->>-IsOk _ _ _ c.1 in (a.0, b.0, d.0, d.1)

  level_parts : o.on ≡ on_level → (is_some o.bucket ≡ true) × (is_some o.at ≡ true)
  unfolding check_on_level
  level_parts e =
      let l = check_on-level section o e parts.0 in
      let a = fail_if->>-IsOk _ _ _ l in
      let b = fail_if->>-IsOk _ _ _ a.1 in
      let c = fail_if->>-IsOk _ _ _ b.1 in
      (not-eq-false _ (or-eq-false _ _ a.0).0, not-eq-false _ c.0)

  level_lem : (o.on == on_level) ≡ on_bucket o
  unfolding on_bucket
  level_lem = elim (Bool-cases (o.on == on_level)) [
    | inl e ↦ let p = level_parts ((eq_iff o.on on_level).0 e) in rw (e, p.0) refl
    | inr e ↦ rw e refl
  ]

  level_at_lem : on_bucket o ≡ true → is_some o.at ≡ true
  level_at_lem e = (level_parts ((eq_iff o.on on_level).0 (level_lem ∙ e))).1

  score_at_lem : o.on ≡ on_score → is_some o.at ≡ true
  unfolding check_on_score
  score_at_lem e =
      let a = fail_if->>-IsOk _ _ _ (check_on-score section o e parts.0) in not-eq-false _ a.0

  overload_lem :
      o.on ≡ on_overload
      → (section ≡ "request") × (pos 25 ≤ℤ Overload.at o.at) × (Overload.at o.at ≤ℤ pos 100)
  unfolding check_on_overload
  overload_lem e =
      let a = fail_if->>-IsOk _ _ _ (check_on-overload section o e parts.0) in
      let b = >>-IsOk (Overload.check o.at) _ a.1 in
      let c = Overload.check-at_bounds o.at b.0 in
      ((eq_iff section "request").0 (not-eq-false _ a.0), c.0, c.1)

  ask_tail : asks o ≡ true → IsOk (check_ask_section section o)
  ask_tail e = rw (e, tail) at parts.3

  list_tail : asks o ≡ false → IsOk (check_list o)
  list_tail e = rw (e, tail) at parts.3

  list_parts :
      asks o ≡ false
      → ((o.list == "") ≡ false) × (name_re o.list ≡ true) × (leb_ℤ o.ttl (pos 0) ≡ false)
  unfolding check_list
  list_parts e =
      let a = fail_if->>-IsOk _ _ _ (list_tail e) in
      let b = fail_if->>-IsOk _ _ _ a.1 in
      let c = fail_if->>-IsOk _ _ _ b.1 in (a.0, not-eq-false _ b.0, fail_if-IsOk _ _ c.1)

  one_way_lem : asks o ≡ (o.list == "")
  one_way_lem = elim (Bool-cases (asks o)) [
    | inl e ↦ e ∙ sym (not-eq-false _ (and-eq-false _ _ parts.2 e))
    | inr e ↦ e ∙ sym (list_parts e).0
  ]

  list_lem : asks o ≡ false → (name_re o.list ≡ true) × (ltb_ℤ (pos 0) o.ttl ≡ true)
  list_lem e = let p = list_parts e in (p.1, leb-ltb_ℤ o.ttl (pos 0) p.2)

  deny_lem : o.on ≡ on_deny → asks o ≡ true → record_verb o.verb ≡ true
  unfolding check_ask_section validate_outcome_ask
  deny_lem e asked =
      let a = >>-IsOk (validate_outcome_ask o) _ (ask_tail asked) in
      let b = fail_if->>-IsOk _ _ _ a.0 in
      let d : (o.on == on_deny) ≡ true = ap (λ s. s == on_deny) e in
      not-eq-false _ (and-eq-false _ _ b.0 d)

ask_lem :
    (section : String) (o : Outcome)
    → IsOk (validate_outcome section o)
    → asks o ≡ true
    → IsValidAsk o
unfolding check_ask_section
ask_lem section o h asked =
    validate_outcome_ask-IsValidAsk o
      (>>-IsOk (validate_outcome_ask o) _ (ask_tail section o h asked)).0

pub validate_outcome-IsValidOutcome :
    (section : String) (o : Outcome) → IsOk (validate_outcome section o) → IsValidOutcome section o
validate_outcome-IsValidOutcome section o h = record {
  level = level_lem section o h;
  level_at = level_at_lem section o h;
  score_at = score_at_lem section o h;
  overload = overload_lem section o h;
  one_way = one_way_lem section o h;
  list = list_lem section o h;
  asked = ask_lem section o h;
  deny = deny_lem section o h;
}
