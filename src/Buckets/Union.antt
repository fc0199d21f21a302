-- ===== src/Buckets/Union.antt =====
-- internal/buckets/buckets.go: the references that `refUnion` collects.
use placitum_counter.Prelude.{
  All, Bool, Bool-cases, List, [], and-eq-true, ap, arith, eq_iff, eq_refl, false, if◌then◌else◌,
  inl, inr, map, not, or-eq-false, or-false, or-true, refl, sym, true, ◌&&◌, ◌++◌, ◌==◌, ◌||◌, ◌∙◌,
  ◌∷◌, ◌≡◌,
}
use placitum_counter.Prelude.Float.{Float64}
use placitum_counter.Buckets.{
  Ref, Charge, Tiers, same_ref, has_ref, insert_ref, sort_refs, admits, add_refs, ref_union, before,
}

pub same_ref→eq : (a b : Ref) → same_ref a b ≡ true → a ≡ b
unfolding same_ref
same_ref→eq a b h =
    let e = and-eq-true (a.kind == b.kind) (a.key == b.key) h in
    λ i. record { kind = (eq_iff a.kind b.kind).0 e.0 i; key = (eq_iff a.key b.key).0 e.1 i }

pub same_ref_refl : (a : Ref) → same_ref a a ≡ true
unfolding same_ref
same_ref_refl a = rw (eq_refl a.kind, eq_refl a.key) refl

has_ref-insert_ref :
    (x r : Ref) (xs : List Ref) → has_ref (insert_ref x xs) r ≡ (same_ref x r || has_ref xs r)
unfolding has_ref insert_ref
has_ref-insert_ref x r [] = refl
has_ref-insert_ref x r (y ∷ xs) = ground (arith, has_ref-insert_ref x r xs)

has_ref-sort_refs : (r : Ref) (xs : List Ref) → has_ref (sort_refs xs) r ≡ has_ref xs r
unfolding has_ref sort_refs
has_ref-sort_refs r [] = refl
has_ref-sort_refs r (x ∷ xs) =
    has_ref-insert_ref x r (sort_refs xs) ∙ ap (λ b. same_ref x r || b) (has_ref-sort_refs r xs)

pub has_ref-append :
    (r : Ref) (xs ys : List Ref) → has_ref (xs ++ ys) r ≡ (has_ref xs r || has_ref ys r)
unfolding has_ref
has_ref-append r [] ys = refl
has_ref-append r (x ∷ xs) ys = ground (arith, has_ref-append r xs ys)

same_ref_sym : (a b : Ref) → same_ref a b ≡ same_ref b a
unfolding same_ref
same_ref_sym a b =
    ground
      (arith, eq_iff a.kind b.kind, eq_iff b.kind a.kind, eq_iff a.key b.key, eq_iff b.key a.key)

and-or : (a b c : Bool) → ((a && b) || (a && c)) ≡ (a && (b || c))
and-or true b c = refl
and-or false b c = refl

-- No reference stands twice.
abbrev pub Distinct : List Ref → Type 0
Distinct [] = Unit
Distinct (x ∷ xs) = (has_ref xs x ≡ false) × Distinct xs

Distinct-insert_ref :
    (x : Ref) (xs : List Ref) → has_ref xs x ≡ false → Distinct xs → Distinct (insert_ref x xs)
unfolding insert_ref has_ref
Distinct-insert_ref x [] h d = (h, tt)
Distinct-insert_ref x (y ∷ xs) h d =
    let e = or-eq-false (same_ref y x) (has_ref xs x) h in
    let swapped = same_ref_sym x y ∙ e.0 in
    let fresh : has_ref (insert_ref x xs) y ≡ false =
      has_ref-insert_ref x y xs ∙ rw (swapped, d.0) refl in
    elim (Bool-cases (before x y)) [
      | inl first ↦ rw first (h, d)
      | inr later ↦ rw later (fresh, Distinct-insert_ref x xs e.1 d.1)
    ]

Distinct-sort_refs : (xs : List Ref) → Distinct xs → Distinct (sort_refs xs)
unfolding sort_refs
Distinct-sort_refs [] d = tt
Distinct-sort_refs (x ∷ xs) d =
    Distinct-insert_ref x (sort_refs xs) (has_ref-sort_refs x xs ∙ d.0) (Distinct-sort_refs xs d.1)

Distinct-snoc :
    (xs : List Ref) (r : Ref) → has_ref xs r ≡ false → Distinct xs → Distinct (xs ++ (r ∷ []))
unfolding has_ref
Distinct-snoc [] r h d = (refl, tt)
Distinct-snoc (x ∷ xs) r h d =
    let e = or-eq-false (same_ref x r) (has_ref xs r) h in
    (
      has_ref-append x xs (r ∷ []) ∙ rw (d.0, same_ref_sym r x, e.0) refl,
      Distinct-snoc xs r e.1 d.1,
    )

-- A property of every reference that the test finds holds of every element.
pub All-has_ref :
    (P : Ref → Type 0) (xs : List Ref) → ((r : Ref) → has_ref xs r ≡ true → P r) → All P xs
unfolding has_ref
All-has_ref P [] f = tt
All-has_ref P (x ∷ xs) f = (
  f x (ap (λ b. b || has_ref xs x) (same_ref_refl x)),
  All-has_ref P xs (λ r h. f r (ap (λ b. same_ref x r || b) h ∙ or-true (same_ref x r))),
)

module _ {F : Type 0} ⦃fl : Float64 F⦄ (tiers : Tiers F) where
  Distinct-add_refs : (out rs : List Ref) → Distinct out → Distinct (add_refs tiers out rs)
  unfolding add_refs
  Distinct-add_refs out [] d = d
  Distinct-add_refs out (x ∷ rs) d = elim (Bool-cases (admits tiers x)) [
    | inl good ↦ elim (Bool-cases (has_ref out x)) [
      | inl seen ↦ rw (good, seen) (Distinct-add_refs out rs d)
      | inr new ↦
          rw (good, new) (Distinct-add_refs (out ++ (x ∷ [])) rs (Distinct-snoc out x new d))
    ]
    | inr bad ↦ rw bad (Distinct-add_refs out rs d)
  ]

  -- One round of `add`.
  abbrev round : List Ref → Ref → List Ref
  round out x = if not (admits tiers x) then out else if has_ref out x then out else out ++ (x ∷ [])

  has_ref-snoc :
      (out : List Ref) (x r : Ref) → has_ref (out ++ (x ∷ [])) r ≡ (has_ref out r || same_ref x r)
  unfolding has_ref
  has_ref-snoc out x r =
      has_ref-append r out (x ∷ []) ∙ ap (λ b. has_ref out r || b) (or-false (same_ref x r))

  has_ref-round_self :
      (out : List Ref) (r : Ref) → admits tiers r ≡ true → has_ref (round out r) r ≡ true
  has_ref-round_self out r good = elim (Bool-cases (has_ref out r)) [
    | inl seen ↦ rw (good, seen) seen
    | inr new ↦
        rw (good, new)
          (has_ref-snoc out r r
            ∙ ap (λ b. has_ref out r || b) (same_ref_refl r)
            ∙ or-true (has_ref out r))
  ]

  has_ref-round_same :
      (out : List Ref) (x r : Ref)
      → same_ref x r ≡ true
      → admits tiers r ≡ true
      → has_ref (round out x) r ≡ true
  has_ref-round_same out x r same good = rw (same_ref→eq x r same) (has_ref-round_self out r good)

  has_ref-round_other :
      (out : List Ref) (x r : Ref) → same_ref x r ≡ false → has_ref (round out x) r ≡ has_ref out r
  has_ref-round_other out x r other = elim (Bool-cases (admits tiers x)) [
    | inl good ↦ elim (Bool-cases (has_ref out x)) [
      | inl seen ↦ rw (good, seen) refl
      | inr new ↦
          rw (good, new)
            (has_ref-snoc out x r ∙ ap (λ b. has_ref out r || b) other ∙ or-false (has_ref out r))
    ]
    | inr bad ↦ rw bad refl
  ]

  has_ref-round_bad :
      (out : List Ref) (x r : Ref)
      → admits tiers r ≡ false
      → has_ref (round out x) r ≡ has_ref out r
  has_ref-round_bad out x r bad = elim (Bool-cases (same_ref x r)) [
    | inl same ↦ rw (same_ref→eq x r same, bad) refl
    | inr other ↦ has_ref-round_other out x r other
  ]

  has_ref-add_refs :
      (r : Ref) (out rs : List Ref)
      → has_ref (add_refs tiers out rs) r ≡ (has_ref out r || (admits tiers r && has_ref rs r))
  unfolding add_refs has_ref
  has_ref-add_refs r out [] = ground arith
  has_ref-add_refs r out (x ∷ rs) =
      has_ref-add_refs r (round out x) rs ∙ elim (Bool-cases (admits tiers r)) [
        | inl good ↦ elim (Bool-cases (same_ref x r)) [
          | inl same ↦
              rw (has_ref-round_same out x r same good, same, good) (sym (or-true (has_ref out r)))
          | inr other ↦ rw (has_ref-round_other out x r other, other) refl
        ]
        | inr bad ↦ rw (has_ref-round_bad out x r bad, bad) refl
      ]

  -- `refUnion` holds a reference exactly when its tier is enabled, its key is not empty and it is
  -- charged or read, and it holds no reference twice.
  pub ref_union-members :
      (charges : List (Charge F)) (reads : List Ref)
      → ((r : Ref)
          → has_ref (ref_union tiers charges reads) r
            ≡ (admits tiers r && (has_ref (map (λ c. c.ref) charges) r || has_ref reads r)))
        × Distinct (ref_union tiers charges reads)
  unfolding ref_union has_ref
  ref_union-members charges reads =
      let charged = map (λ c. c.ref) charges in
      let first = add_refs tiers [] charged in
      (
        λ r.
            has_ref-sort_refs r (add_refs tiers first reads)
            ∙ has_ref-add_refs r first reads
            ∙ rw (has_ref-add_refs r [] charged)
                (and-or (admits tiers r) (has_ref charged r) (has_ref reads r)),
        Distinct-sort_refs (add_refs tiers first reads)
            (Distinct-add_refs first reads (Distinct-add_refs [] charged tt)),
      )
