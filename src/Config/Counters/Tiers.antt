-- ===== src/Config/Counters/Tiers.antt =====
-- internal/config/counters.go: `Tiers`, the tiers that the buckets are run with.
use placitum_counter.Prelude.{
  >>-IsOk, All, All-append, All-imp, IsOk, List, String, [], each-IsOk, fail_if->>-IsOk, false,
  map_get, map_get-All, pos, refl, some, true, ◌++◌, ◌∷◌, ◌≡◌, ◌≢◌,
}
use placitum_counter.Prelude.Float.{Float64}
use placitum_counter.Buckets.{Tier, enabled}
use placitum_counter.Config.Types.{AxisTier, Counter, Counters}
use placitum_counter.Config.Counters.{kind, user_from}
use placitum_counter.Config.Counters.Valid.{
  validate, validate_counter, validate_counter-IsValidCounter, IsValidCounter, IsValidTier,
}

module _ {F : Type 0} where
  unfoldable pub axis_tiers : String → List (String × AxisTier F) → List (String × Tier F)
  axis_tiers name [] = []
  axis_tiers name ((axis, tier) ∷ axes) =
      (kind name axis, record { max = tier.max; loss = tier.loss }) ∷ axis_tiers name axes

  unfoldable pub all_tiers : List (String × Counter F) → List (String × Tier F)
  unfolding axis_tiers
  all_tiers [] = []
  all_tiers ((name, counter) ∷ counters) = axis_tiers name counter.axes ++ all_tiers counters

  -- `Tiers`
  unfoldable pub tiers : Counters F → List (String × Tier F)
  unfolding all_tiers
  tiers c = all_tiers c.counters

module _ {F : Type 0} ⦃fl : Float64 F⦄ where
  -- What the tests of `validate` leave of a tier.
  abbrev Tested : String → Tier F → Type 0
  Tested k t =
      (fl.le t.max (fl.of_int (pos 0)) ≡ false) × (fl.le t.loss (fl.of_int (pos 0)) ≡ false)

  axis_tiers-Tested :
      (Q : String → AxisTier F → Type 0) (name : String) (axes : List (String × AxisTier F))
      → All (λ e. IsValidTier e.0 e.1 × Q e.0 e.1) axes
      → All (λ e. Tested e.0 e.1) (axis_tiers name axes)
  unfolding axis_tiers
  axis_tiers-Tested Q name [] h = tt
  axis_tiers-Tested Q name ((axis, tier) ∷ axes) h =
      ((h.0.0.max_pos, h.0.0.loss_pos), axis_tiers-Tested Q name axes h.1)

  all_tiers-Tested :
      (c : Counters F) (counters : List (String × Counter F))
      → All (λ e. IsValidCounter c e.0 e.1) counters
      → All (λ e. Tested e.0 e.1) (all_tiers counters)
  unfolding all_tiers
  all_tiers-Tested c [] h = tt
  all_tiers-Tested c ((name, counter) ∷ counters) h =
      All-append _ (axis_tiers name counter.axes) (all_tiers counters)
        (axis_tiers-Tested (λ axis t. axis ≡ "user" → user_from c name ≢ "") name counter.axes
          h.0.tiers)
        (all_tiers-Tested c counters h.1)

  -- In an accepted configuration every tier is enabled whose maximum and loss are comparable with 0: a
  -- number that is not at most 0 is above it, which a NaN is not.
  pub tiers-enabled :
      (c : Counters F) (k : String) (t : Tier F)
      → IsOk (validate c)
      → map_get k (tiers c) ≡ some t
      → (fl.le t.max (fl.of_int (pos 0)) ≡ false → fl.lt (fl.of_int (pos 0)) t.max ≡ true)
      → (fl.le t.loss (fl.of_int (pos 0)) ≡ false → fl.lt (fl.of_int (pos 0)) t.loss ≡ true)
      → enabled t ≡ true
  unfolding tiers validate enabled
  tiers-enabled c k t h found max_number loss_number =
      let a = fail_if->>-IsOk _ _ _ h in
      let b = >>-IsOk _ _ a.1 in
      let valid =
        All-imp _ _ (validate_counter-IsValidCounter c) c.counters
          (each-IsOk (validate_counter c) c.counters b.0) in
      let tested =
        map_get-All Tested (all_tiers c.counters) k t (all_tiers-Tested c c.counters valid) found in
      rw (max_number tested.0, loss_number tested.1) refl
