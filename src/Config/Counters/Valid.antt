-- ===== src/Config/Counters/Valid.antt =====
-- internal/config/counters.go: what `validate` accepts.
use placitum_counter.Prelude.{
  >>-IsOk, All, All-imp, Bool-cases, IsOk, List, Option, Result, String, [], and-eq-false, contains,
  each, each-IsOk, eq_iff, err, fail_if, fail_if->>-IsOk, fail_if-IsOk, false, if◌then◌else◌, inl,
  inr, is_empty, map_get, map_get-All, none, not, not-eq-false, ok, or-eq-false, pos, some, sym,
  true, ℕ, ◌&&◌, ◌==◌, ◌>>◌, ◌||◌, ◌∙◌, ◌∷◌, ◌≡◌, ◌≢◌,
}
use mathlib.Core.Bool.{false≢true}
use mathlib.Core.Option.{some-ne-none}
use placitum_counter.Prelude.Float.{Float64}
use placitum_counter.Config.Types.{AxisTier, Subjects, Counter, Counters}
use placitum_counter.Config.Counters.{known_axes, split_from, user_from, has, declared}
use placitum_counter.Config.Names.{name_re}

accept_parts : Option (List ℕ × List ℕ) → Result (Unit {0})
accept_parts none =
    err
      "subjects.user.from must be cookie:<name>, header:<name>, session:user or session:sid, got %q"
accept_parts (some parts) = ok tt

-- `Subjects.validate`
unfoldable pub validate_subjects : Subjects → Result (Unit {0})
unfolding accept_parts
validate_subjects s = if s.user_from == "" then ok tt else accept_parts (split_from s.user_from)

abbrev pub validate_own : Option Subjects → Result (Unit {0})
validate_own none = ok tt
validate_own (some s) = validate_subjects s

accept_parts-found : (o : Option (List ℕ × List ℕ)) → IsOk (accept_parts o) → o ≢ none
unfolding accept_parts
accept_parts-found none h e = absurd h
accept_parts-found (some parts) h e = some-ne-none parts e

validate_subjects-found :
    (s : Subjects) → IsOk (validate_subjects s) → s.user_from ≢ "" → split_from s.user_from ≢ none
unfolding validate_subjects
validate_subjects-found s h ne = elim (Bool-cases (s.user_from == "")) [
  | inl e ↦ absurd (ne ((eq_iff s.user_from "").0 e))
  | inr e ↦ accept_parts-found (split_from s.user_from) (rw e at h)
]

declared-found :
    (own : Option Subjects) (shared : Subjects)
    → IsOk (validate_own own)
    → IsOk (validate_subjects shared)
    → let from = declared own (λ s. s.user_from) shared.user_from in
      from ≢ "" → split_from from ≢ none
declared-found none shared h k = validate_subjects-found shared k
declared-found (some s) shared h k = elim (Bool-cases (s.user_from == "")) [
  | inl e ↦ rw e (validate_subjects-found shared k)
  | inr e ↦ rw e (validate_subjects-found s h)
]

module _ {F : Type 0} ⦃fl : Float64 F⦄ where
  unfoldable pub validate_tier : Counters F → String → String × AxisTier F → Result (Unit {0})
  validate_tier c name (axis, tier) = do
    fail_if (not (contains known_axes axis)) "counter %s: unknown axis %q (known: %s)"
    fail_if (fl.le tier.max (fl.of_int (pos 0))) "counter %s: axis %s: max must be positive"
    fail_if (fl.le tier.loss (fl.of_int (pos 0)) || fl.lt (fl.of_int (pos 100)) tier.loss)
        "counter %s: axis %s: loss must be within (0..100] percent per second"
    fail_if (axis == "user" && user_from c name == "")
        "counter %s: axis user needs subjects.user.from (shared or declared on the counter)"

  unfoldable pub validate_counter : Counters F → String × Counter F → Result (Unit {0})
  validate_counter c (name, counter) = do
    fail_if (not (name_re name)) "%s: bad counter name %q"
    fail_if (not (counter.fill == "" || counter.fill == "measure" || counter.fill == "note"))
        "counter %s: fill must be %s or %s, got %q"
    fail_if (is_empty counter.axes) "counter %s: no axes: a counter without axes counts nobody"
    each (validate_tier c name) counter.axes
    validate_own counter.subjects

  -- `Counters.validate`
  unfoldable pub validate : Counters F → Result (Unit {0})
  validate c = do
    fail_if (is_empty c.counters) "%s: no counters declared"
    each (validate_counter c) c.counters
    validate_subjects c.subjects

  -- What an accepted axis satisfies. The bounds say what the tests exclude: a NaN passes them.
  pub record IsValidTier (axis : String) (tier : AxisTier F) : Type 0 where
    pub known : contains known_axes axis ≡ true
    pub max_pos : fl.le tier.max (fl.of_int (pos 0)) ≡ false
    pub loss_pos : fl.le tier.loss (fl.of_int (pos 0)) ≡ false
    pub loss_le : fl.lt (fl.of_int (pos 100)) tier.loss ≡ false

  validate_tier-IsValidTier :
      (c : Counters F) (name axis : String) (tier : AxisTier F)
      → IsOk (validate_tier c name (axis, tier))
      → IsValidTier axis tier × (axis ≡ "user" → user_from c name ≢ "")
  unfolding validate_tier
  validate_tier-IsValidTier c name axis tier h =
      let a = fail_if->>-IsOk _ _ _ h in
      let b = fail_if->>-IsOk _ _ _ a.1 in
      let d = fail_if->>-IsOk _ _ _ b.1 in
      let e = or-eq-false _ _ d.0 in
      (
        record { known = not-eq-false _ a.0; max_pos = b.0; loss_pos = e.0; loss_le = e.1 },
        λ user none.
            let f = and-eq-false _ _ (fail_if-IsOk _ _ d.1) ((eq_iff axis "user").1 user) in
            false≢true (sym f ∙ (eq_iff (user_from c name) "").1 none),
      )

  -- What an accepted counter satisfies.
  pub record IsValidCounter (c : Counters F) (name : String) (counter : Counter F) : Type 0 where
    pub named : name_re name ≡ true
    pub nonempty : is_empty counter.axes ≡ false
    pub tiers : All (λ e. IsValidTier e.0 e.1 × (e.0 ≡ "user" → user_from c name ≢ "")) counter.axes
    pub own : IsOk (validate_own counter.subjects)

  pub validate_counter-IsValidCounter :
      (c : Counters F) (e : String × Counter F)
      → IsOk (validate_counter c e)
      → IsValidCounter c e.0 e.1
  unfolding validate_counter
  validate_counter-IsValidCounter c (name, counter) h =
      let a = fail_if->>-IsOk _ _ _ h in
      let b = fail_if->>-IsOk _ _ _ a.1 in
      let d = fail_if->>-IsOk _ _ _ b.1 in
      let e = >>-IsOk _ _ d.1 in
      record {
        named = not-eq-false _ a.0;
        nonempty = d.0;
        tiers =
            All-imp _ _ (λ e h. validate_tier-IsValidTier c name e.0 e.1 h) counter.axes
              (each-IsOk (validate_tier c name) counter.axes e.0);
        own = e.1;
      }

  -- In a configuration that `validate` accepts, each counter has a valid name, at least one axis, valid
  -- tiers, a user source where it has the user axis, and valid subjects of its own.
  pub validate-IsValidCounter :
      (c : Counters F) (name : String) (counter : Counter F)
      → IsOk (validate c)
      → map_get name c.counters ≡ some counter
      → IsValidCounter c name counter
  unfolding validate
  validate-IsValidCounter c name counter h found =
      let a = fail_if->>-IsOk _ _ _ h in
      let b = >>-IsOk _ _ a.1 in
      map_get-All (IsValidCounter c) c.counters name counter
        (All-imp _ _ (validate_counter-IsValidCounter c) c.counters
          (each-IsOk (validate_counter c) c.counters b.0))
        found

  user_axis-found :
      (axes : List (String × AxisTier F)) (from : String)
      → All (λ e. IsValidTier e.0 e.1 × (e.0 ≡ "user" → from ≢ "")) axes
      → has "user" axes ≡ true
      → from ≢ ""
  unfolding map_get
  user_axis-found [] from h e = absurd (false≢true e)
  user_axis-found ((axis, tier) ∷ axes) from h e = elim (Bool-cases (axis == "user")) [
    | inl same ↦ h.0.1 ((eq_iff axis "user").0 same)
    | inr other ↦ user_axis-found axes from h.1 (rw (other, has) at e)
  ]

  validate-subjects : (c : Counters F) → IsOk (validate c) → IsOk (validate_subjects c.subjects)
  unfolding validate
  validate-subjects c h =
      let counters = each (validate_counter c) c.counters in
      let shared = validate_subjects c.subjects in
      (>>-IsOk counters shared
        (fail_if->>-IsOk (is_empty c.counters) "%s: no counters declared" (counters >> shared)
          h).1).1

  -- In an accepted configuration every counter that has the user axis has a source for it, its own or
  -- the shared one, that `SplitFrom` reads.
  pub validate-user_from :
      (c : Counters F) (name : String) (counter : Counter F)
      → IsOk (validate c)
      → map_get name c.counters ≡ some counter
      → has "user" counter.axes ≡ true
      → split_from (user_from c name) ≢ none
  unfolding user_from
  validate-user_from c name counter h found user =
      let v = validate-IsValidCounter c name counter h found in
      let ne = user_axis-found counter.axes (user_from c name) v.tiers user in
      rw (found, user_from)
        (declared-found counter.subjects c.subjects v.own (validate-subjects c h)
          (rw (found, user_from) at ne))
