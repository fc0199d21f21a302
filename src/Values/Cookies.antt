-- ===== src/Values/Cookies.antt =====
-- cmd/inspector/subjects.go: `cookieFrom` against the split of a line at its semicolons, and on the
-- line that prints cookies.
use placitum_counter.Prelude.{
  Bool, List, Option, [], ap, arith, beq, false, length, none, refl, some, split, suc, sym,
  trim_left, trim_right, trim_space, true, zero, ℕ, ◌<◌, ◌∙◌, ◌∷◌, ◌≡◌,
}
use placitum_counter.Config.Counters.{before, cut}
use placitum_counter.Values.{whole, next_part, part_value, or_next, cookie_from}

abbrev pub value_or : Option (List ℕ) → List ℕ → List ℕ
value_or none next = next
value_or (some v) next = v

-- The value of the first part that is about a cookie, or the empty text.
unfoldable pub first_value : List ℕ → List (List ℕ) → List ℕ
first_value name [] = []
first_value name (p ∷ ps) = value_or (part_value name p) (first_value name ps)

-- What a cut says of the split.
abbrev SplitAt : ℕ → List ℕ → Option (List ℕ × List ℕ) → Type 0
SplitAt sep s none = split sep s ≡ s ∷ []
SplitAt sep s (some (p, rest)) = (split sep s ≡ p ∷ split sep rest) × (length rest < length s)

before-SplitAt :
    (sep c : ℕ) (s : List ℕ) (o : Option (List ℕ × List ℕ))
    → beq c sep ≡ false
    → SplitAt sep s o
    → SplitAt sep (c ∷ s) (before c o)
unfolding split
before-SplitAt sep c s none h e = rw (h, e) refl
before-SplitAt sep c s (some (p, rest)) h e = (rw (h, e.0) refl, omega (arith, e.1))

cut-SplitAt : (sep : ℕ) (s : List ℕ) → SplitAt sep s (cut sep s)
unfolding cut split
cut-SplitAt sep [] = refl
cut-SplitAt sep (c ∷ s) = at_head (beq c sep) refl (cut-SplitAt sep s)
  where
    at_head :
        (b : Bool)
        → beq c sep ≡ b
        → SplitAt sep s (cut sep s)
        → SplitAt sep (c ∷ s) (elim b [ true ↦ some ([], s) | false ↦ before c (cut sep s) ])
    at_head true h rest = (rw h refl, omega arith)
    at_head false h rest = before-SplitAt sep c s (cut sep s) h rest

or_next-value_or :
    (o : Option (List ℕ)) (next : List ℕ) → or_next o (some next) ≡ some (value_or o next)
or_next-value_or none next = refl
or_next-value_or (some v) next = refl

pub first_value-nil : (name : List ℕ) → first_value name ([] ∷ []) ≡ []
unfolding first_value part_value cut trim_space trim_left trim_right
first_value-nil name = refl

module _ (name : List ℕ) where
  cookie_from-nil : (fuel : ℕ) → 0 < fuel → cookie_from fuel [] name ≡ some []
  unfolding cookie_from
  cookie_from-nil zero h = elim h [ ]
  cookie_from-nil (suc fuel) h = refl

  next-first_value :
      (fuel : ℕ) (line : List ℕ) (o : Option (List ℕ × List ℕ))
      → 0 < fuel
      → SplitAt b';' line o
      → ((rest : List ℕ)
          → length rest < length line
          → cookie_from fuel rest name ≡ some (first_value name (split b';' rest)))
      → or_next (part_value name (whole line o).0) (cookie_from fuel (whole line o).1 name)
        ≡ some (first_value name (split b';' line))
  unfolding first_value
  next-first_value fuel line none more e ih =
      rw (e, cookie_from-nil fuel more) (or_next-value_or (part_value name line) [])
  next-first_value fuel line (some (p, rest)) more e ih =
      rw (e.0, ih rest e.1)
        (or_next-value_or (part_value name p) (first_value name (split b';' rest)))

  -- With more fuel than the line is long, the loop ends, and gives the value of the first part of the
  -- line, split at its semicolons, that is about the cookie.
  pub cookie_from-eq-first_value :
      (fuel : ℕ) (line : List ℕ)
      → length line < fuel
      → cookie_from fuel line name ≡ some (first_value name (split b';' line))
  unfolding cookie_from next_part
  cookie_from-eq-first_value zero line h = elim h [ ]
  cookie_from-eq-first_value (suc fuel) [] h =
      cookie_from-nil (suc fuel) h ∙ sym (ap some (unfold split in first_value-nil name))
  cookie_from-eq-first_value (suc fuel) (c ∷ s) h =
      next-first_value fuel (c ∷ s) (cut b';' (c ∷ s)) (omega (arith, h)) (cut-SplitAt b';' (c ∷ s))
        (λ rest shorter. cookie_from-eq-first_value fuel rest (omega (arith, h, shorter)))
