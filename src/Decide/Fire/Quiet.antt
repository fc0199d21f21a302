-- ===== src/Decide/Fire/Quiet.antt =====
-- internal/decide/decide.go: the outcomes on overload that wait.
use placitum_counter.Prelude.{
  All, Bool-cases, IsOk, List, String, [], arith, eq_iff, false, inl, inr, none, pos, refl, some,
  subst, sym, ℤ, ◌<ℤ◌, ◌==◌, ◌∷◌, ◌≡◌, ◌≤ℤ◌, ◌⊎◌,
}
use placitum_counter.Config.Types.{Outcome}
use placitum_counter.Config.Outcome.{on_overload}
use placitum_counter.Config.Validate.Outcomes.{validate_outcome}
use placitum_counter.Config.Validate.OutcomeSound.{validate_outcome-IsValidOutcome}
use placitum_counter.Decide.Fire.{Fired, nothing, fires_overload, fire_overload_loop, fire_overload}
use placitum_counter.Overload

-- A queue that is less than a quarter full, or an outcome without a threshold or with that of a full
-- queue, which is for tasks that are shed.
abbrev pub Waits : ℤ → Outcome → Type 0
Waits fill o = (fill <ℤ pos 25) ⊎ (o.at ≡ none) ⊎ (o.at ≡ some (pos 100))

below_threshold : (a fill : ℤ) → pos 25 ≤ℤ a → fill <ℤ pos 25 → Overload.fires a fill false ≡ false
unfolding Overload.fires
below_threshold a fill h low = ground arith

full_waits : (fill : ℤ) → Overload.fires (pos 100) fill false ≡ false
unfolding Overload.fires
full_waits fill = refl

-- An accepted outcome that waits does not fire.
Waits-eq-false :
    (o : Outcome) (fill : ℤ)
    → IsOk (validate_outcome "request" o)
    → Waits fill o
    → fires_overload fill false o ≡ false
unfolding fires_overload Overload.at
Waits-eq-false o fill h w = elim (Bool-cases (o.on == on_overload)) [
  | inr other ↦ rw other refl
  | inl e ↦
      let v = validate_outcome-IsValidOutcome "request" o h in
      let bounds = v.overload ((eq_iff o.on on_overload).0 e) in rw e (by_case bounds.1 w)
]
  where
    by_case :
        pos 25 ≤ℤ Overload.at o.at
        → Waits fill o
        → Overload.fires (Overload.at o.at) fill false ≡ false
    by_case h (inl low) = below_threshold _ fill h low
    by_case h (inr (inl none_given)) =
        subst (λ a. Overload.fires (Overload.at a) fill false ≡ false) (sym none_given)
          (full_waits fill)
    by_case h (inr (inr full)) =
        subst (λ a. Overload.fires (Overload.at a) fill false ≡ false) (sym full) (full_waits fill)

module _ {F : Type 0} where
  Waits-fire_overload_loop :
      (fill : ℤ) (addr code : String) (out : Fired F) (os : List Outcome)
      → All (λ o. IsOk (validate_outcome "request" o) × Waits fill o) os
      → fire_overload_loop fill false addr code out os ≡ out
  unfolding fire_overload_loop
  Waits-fire_overload_loop fill addr code out [] h = refl
  Waits-fire_overload_loop fill addr code out (o ∷ os) h =
      let idle = Waits-eq-false o fill h.0.0 h.0.1 in
      rw idle (Waits-fire_overload_loop fill addr code out os h.1)

  -- While no task is shed, accepted outcomes of the request section do nothing on overload if the queue is
  -- less than a quarter full, and neither does an outcome without a threshold or with the threshold 100, however full
  -- the queue is.
  pub fire_overload-quiet :
      (outcomes : List Outcome) (fill : ℤ) (addr code : String)
      → All (λ o. IsOk (validate_outcome "request" o) × Waits fill o) outcomes
      → fire_overload {F = F} outcomes fill false addr code ≡ nothing
  unfolding fire_overload
  fire_overload-quiet outcomes fill addr code h =
      Waits-fire_overload_loop fill addr code nothing outcomes h
