-- ===== src/Overload.antt =====
-- internal/overload/overload.go: when an overload outcome fires.
use placitum_counter.Prelude.{
  Bool, IsOk, Option, Result, String, arith, fail_if, false, leb_ℤ, ltb_ℤ, none, ok, pos, some,
  true, ℤ, ◌&&◌, ◌||◌, ◌≤ℤ◌,
}

abbrev pub on : String
on = "overload"

abbrev pub at_min : ℤ
at_min = pos 25

abbrev pub at_max : ℤ
at_max = pos 100

unfoldable pub at : Option ℤ → ℤ
at none = at_max
at (some a) = a

unfoldable pub check : Option ℤ → Result (Unit {0})
check none = ok tt
check (some a) =
    fail_if (ltb_ℤ a at_min || ltb_ℤ at_max a) "at %d is out of %d..%d percent of the queue"

unfoldable pub fires : ℤ → ℤ → Bool → Bool
fires a fill true = true
fires a fill false = ltb_ℤ a at_max && leb_ℤ a fill

-- An accepted threshold lies in 25..100, and one that is not given counts as 100.
pub check-at_bounds : (a : Option ℤ) → IsOk (check a) → (pos 25 ≤ℤ at a) × (at a ≤ℤ pos 100)
unfolding check at
check-at_bounds none h = omega arith
check-at_bounds (some a) h = ground arith
