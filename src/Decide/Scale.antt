-- ===== src/Decide/Scale.antt =====
-- internal/decide/prior.go: `ScaleScore`.
use placitum_counter.Prelude.{
  arith, beq_ℤ, if◌then◌else◌, leb_ℤ, ltb_ℤ, max_ℤ, min_ℤ, pos, ℤ, ◌||◌, ◌≤ℤ◌,
}
use placitum_counter.Prelude.Float.{Float64}

module _ {F : Type 0} (fl : Float64 F) where
  -- `int(math.Round(float64(score) * (1 + float64(percent)/100)))`
  unfoldable pub scaled_by : ℤ → ℤ → ℤ
  scaled_by score percent = fl.round (
      fl.mul (fl.of_int score)
        (fl.add (fl.of_int (pos 1)) (fl.div (fl.of_int percent) (fl.of_int (pos 100)))))

  unfoldable pub scale_score : ℤ → ℤ → ℤ
  unfolding scaled_by
  scale_score score percent =
      if beq_ℤ percent (pos 0) || leb_ℤ score (pos 0)
      then max_ℤ score (pos 0)
      else (let scaled = scaled_by score percent in
          min_ℤ (if ltb_ℤ scaled (pos 0) then pos 0 else scaled) (pos 100))

  -- A score of at most 100 stays within 0..100 under every percentage, whatever the rounding gives.
  pub scale_score_bounds :
      (score percent : ℤ)
      → score ≤ℤ pos 100
      → (pos 0 ≤ℤ scale_score score percent) × (scale_score score percent ≤ℤ pos 100)
  unfolding scale_score
  scale_score_bounds score percent h = ground arith
