-- ===== src/Values/Jar.antt =====
-- cmd/inspector/subjects.go: `cookieFrom` on the line that prints cookies.
use mathlib.Core.Bool.{true≢false}
use placitum_counter.Prelude.{
  All, All-append, All-imp, Bool, List, [], ap, arith, beq, false, if◌then◌else◌, is_space, length,
  none, not, prepend, refl, some, split, suc, sym, text_eq, trim_left, trim_right, trim_space, true,
  ℕ, ◌&&◌, ◌++◌, ◌∙◌, ◌∷◌, ◌≡◌,
}
use placitum_counter.Config.Counters.{cut}
use placitum_counter.Values.{
  trim_quotes_left, trim_quotes_right, trim_quotes, part_value, cookie_in, or_empty,
}
use placitum_counter.Values.Cookies.{
  first_value, first_value-nil, value_or, cookie_from-eq-first_value,
}

-- A header line with cookies, as a client prints it.
abbrev Jar : Type 0
Jar = List (List ℕ × List ℕ)

abbrev print_pair : List ℕ × List ℕ → List ℕ
print_pair (name, value) = name ++ (b'=' ∷ value)

unfoldable pub print_jar : Jar → List ℕ
print_jar [] = []
print_jar (c ∷ []) = print_pair c
print_jar (c ∷ (d ∷ jar)) = print_pair c ++ (b';' ∷ b' ' ∷ print_jar (d ∷ jar))

-- The value of the first cookie with a name, or the empty text.
unfoldable pub jar_get : List ℕ → Jar → List ℕ
jar_get name [] = []
jar_get name ((k, v) ∷ jar) = if text_eq k name then v else jar_get name jar

-- What a name and a value may consist of.
unfoldable pub name_rune : ℕ → Bool
name_rune c = not (is_space c) && not (beq c b';') && not (beq c b'=')

unfoldable pub value_rune : ℕ → Bool
value_rune c = not (is_space c) && not (beq c b';') && not (beq c b'"')

abbrev pub IsPlain : List ℕ × List ℕ → Type 0
IsPlain (name, value) = All (λ c. name_rune c ≡ true) name × All (λ c. value_rune c ≡ true) value

abbrev Without : ℕ → List ℕ → Type 0
Without sep s = All (λ c. beq c sep ≡ false) s

abbrev NoSpace : List ℕ → Type 0
NoSpace s = All (λ c. is_space c ≡ false) s

trim_right-NoSpace : (s : List ℕ) → NoSpace s → trim_right s ≡ s
unfolding trim_right
trim_right-NoSpace [] h = refl
trim_right-NoSpace (c ∷ []) h = rw h.0 refl
trim_right-NoSpace (c ∷ (d ∷ s)) h = rw (trim_right-NoSpace (d ∷ s) h.1) refl

trim_left-NoSpace : (s : List ℕ) → NoSpace s → trim_left s ≡ s
unfolding trim_left
trim_left-NoSpace [] h = refl
trim_left-NoSpace (c ∷ s) h = rw h.0 refl

trim_space-NoSpace : (s : List ℕ) → NoSpace s → trim_space s ≡ s
unfolding trim_space
trim_space-NoSpace s h = rw (trim_left-NoSpace s h) (trim_right-NoSpace s h)

trim_quotes_left-Without : (s : List ℕ) → Without b'"' s → trim_quotes_left s ≡ s
unfolding trim_quotes_left
trim_quotes_left-Without [] h = refl
trim_quotes_left-Without (c ∷ s) h = rw h.0 refl

trim_quotes_right-Without : (s : List ℕ) → Without b'"' s → trim_quotes_right s ≡ s
unfolding trim_quotes_right
trim_quotes_right-Without [] h = refl
trim_quotes_right-Without (c ∷ []) h = rw h.0 refl
trim_quotes_right-Without (c ∷ (d ∷ s)) h = rw (trim_quotes_right-Without (d ∷ s) h.1) refl

trim_quotes-Without : (s : List ℕ) → Without b'"' s → trim_quotes s ≡ s
unfolding trim_quotes
trim_quotes-Without s h = rw (trim_quotes_left-Without s h) (trim_quotes_right-Without s h)

beq_refl : (c : ℕ) → beq c c ≡ true
beq_refl c = ground arith

cut-append :
    (sep : ℕ) (s rest : List ℕ) → Without sep s → cut sep (s ++ (sep ∷ rest)) ≡ some (s, rest)
unfolding cut
cut-append sep [] rest h = rw (cut, beq_refl sep) refl
cut-append sep (c ∷ s) rest h = rw (cut, h.0, cut-append sep s rest h.1) refl

split-append :
    (sep : ℕ) (s rest : List ℕ) → Without sep s → split sep (s ++ (sep ∷ rest)) ≡ s ∷ split sep rest
unfolding split
split-append sep [] rest h = rw (beq_refl sep) refl
split-append sep (c ∷ s) rest h = rw (h.0, split-append sep s rest h.1) refl

split-Without : (sep : ℕ) (s : List ℕ) → Without sep s → split sep s ≡ s ∷ []
unfolding split
split-Without sep [] h = refl
split-Without sep (c ∷ s) h = rw (h.0, split-Without sep s h.1) refl

name_rune-plain :
    (c : ℕ)
    → name_rune c ≡ true
    → (is_space c ≡ false) × (beq c b';' ≡ false) × (beq c b'=' ≡ false)
unfolding name_rune
name_rune-plain c h =
    elim (is_space c)
        as (λ b.
          (not b && not (beq c b';') && not (beq c b'=')) ≡ true
          → (b ≡ false) × (beq c b';' ≡ false) × (beq c b'=' ≡ false)) [
            | true ↦ λ e. absurd (true≢false (sym e))
            | false ↦ λ e. (refl, ground (arith, e), ground (arith, e))
          ]
      h

value_rune-plain :
    (c : ℕ)
    → value_rune c ≡ true
    → (is_space c ≡ false) × (beq c b';' ≡ false) × (beq c b'"' ≡ false)
unfolding value_rune
value_rune-plain c h =
    elim (is_space c)
        as (λ b.
          (not b && not (beq c b';') && not (beq c b'"')) ≡ true
          → (b ≡ false) × (beq c b';' ≡ false) × (beq c b'"' ≡ false)) [
            | true ↦ λ e. absurd (true≢false (sym e))
            | false ↦ λ e. (refl, ground (arith, e), ground (arith, e))
          ]
      h

module _ (k v : List ℕ) (h : IsPlain (k, v)) where
  name-NoSpace : NoSpace k
  name-NoSpace = All-imp _ _ (λ c e. (name_rune-plain c e).0) k h.0

  value-NoSpace : NoSpace v
  value-NoSpace = All-imp _ _ (λ c e. (value_rune-plain c e).0) v h.1

  pair-NoSpace : NoSpace (print_pair (k, v))
  pair-NoSpace = All-append _ k (b'=' ∷ v) name-NoSpace ((unfold is_space in refl), value-NoSpace)

  pair-Without : Without b';' (print_pair (k, v))
  pair-Without =
      All-append _ k (b'=' ∷ v) (All-imp _ _ (λ c e. (name_rune-plain c e).1) k h.0)
        (refl, All-imp _ _ (λ c e. (value_rune-plain c e).1) v h.1)

  name-Without : Without b'=' k
  name-Without = All-imp _ _ (λ c e. (name_rune-plain c e).2) k h.0

  value-Without : Without b'"' v
  value-Without = All-imp _ _ (λ c e. (value_rune-plain c e).2) v h.1

value_or-if :
    (b : Bool) (v next : List ℕ)
    → value_or (if b then some v else none) next ≡ (if b then v else next)
value_or-if true v next = refl
value_or-if false v next = refl

module _ (name : List ℕ) where
  -- A space before the first part is trimmed.
  first_value-space :
      (ps : List (List ℕ)) → first_value name (prepend b' ' ps) ≡ first_value name ps
  unfolding first_value part_value trim_space trim_left is_space
  first_value-space [] = refl
  first_value-space (p ∷ ps) = refl

  print_pair-value :
      (k v : List ℕ)
      → IsPlain (k, v)
      → part_value name (print_pair (k, v)) ≡ (if text_eq k name then some v else none)
  unfolding part_value
  print_pair-value k v h =
      rw
        (
          trim_space-NoSpace (print_pair (k, v)) (pair-NoSpace k v h),
          cut-append b'=' k v (name-Without k v h),
          trim_space-NoSpace k (name-NoSpace k v h),
          trim_space-NoSpace v (value-NoSpace k v h),
          trim_quotes-Without v (value-Without k v h),
        )
        refl

  first_value-pair :
      (k v : List ℕ) (ps : List (List ℕ))
      → IsPlain (k, v)
      → first_value name (print_pair (k, v) ∷ ps)
        ≡ (if text_eq k name then v else first_value name ps)
  unfolding first_value
  first_value-pair k v ps h =
      rw (print_pair-value k v h) (value_or-if (text_eq k name) v (first_value name ps))

  split-space :
      (s : List ℕ) → first_value name (split b';' (b' ' ∷ s)) ≡ first_value name (split b';' s)
  unfolding split
  split-space s = first_value-space (split b';' s)

  print_jar-first_value :
      (jar : Jar)
      → All IsPlain jar
      → first_value name (split b';' (print_jar jar)) ≡ jar_get name jar
  unfolding print_jar jar_get
  print_jar-first_value [] h = unfold split in first_value-nil name
  print_jar-first_value ((k, v) ∷ []) h =
      ap (first_value name) (split-Without b';' (print_pair (k, v)) (pair-Without k v h.0))
      ∙ first_value-pair k v [] h.0
      ∙ ap (λ rest. if text_eq k name then v else rest) (unfold first_value in refl)
  print_jar-first_value ((k, v) ∷ (d ∷ jar)) h =
      let rest = print_jar (d ∷ jar) in
      ap (first_value name)
        (split-append b';' (print_pair (k, v)) (b' ' ∷ rest) (pair-Without k v h.0))
      ∙ first_value-pair k v (split b';' (b' ' ∷ rest)) h.0
      ∙ ap (λ next. if text_eq k name then v else next)
          (split-space rest ∙ print_jar-first_value (d ∷ jar) h.1)

  -- On the line that prints cookies whose names and values hold no space and no semicolon, the names no
  -- equals sign and the values no quote, `cookieFrom` gives the value of the first cookie with the
  -- name, or the empty text.
  pub cookie_in-print_jar :
      (jar : Jar) → All IsPlain jar → cookie_in (print_jar jar) name ≡ jar_get name jar
  unfolding cookie_in
  cookie_in-print_jar jar h =
      ap or_empty (
        cookie_from-eq-first_value name (suc (length (print_jar jar))) (print_jar jar)
          (omega arith))
      ∙ print_jar-first_value jar h
