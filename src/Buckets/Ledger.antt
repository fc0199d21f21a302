-- ===== src/Buckets/Ledger.antt =====
-- internal/buckets/buckets.go: the bounds of the levels and of the ledger of the process.
use placitum_counter.Prelude.{
  All, Bool-cases, List, Option, String, [], and-eq-true, ap, arith, false, if◌then◌else◌, inl, inr,
  is_empty, leb, leb→le, length, ltb, map, map_get, map_get-map_put, map_get-map_remove, none, not,
  pos, refl, some, sym, true, ℕ, ◌/◌, ◌==◌, ◌∙◌, ◌∷◌, ◌≡◌, ◌≤◌,
}
use placitum_counter.Prelude.Float.{Float64}
use placitum_counter.Buckets.{
  Tier, Ref, Charge, Level, Tiers, enabled, tier_of, store_key, sum_of, clamp, level, effective_at,
  charged_level, store_level, apply_ref, apply_refs, evict, apply_local, ref_union, apply, live,
  rate_per_sec, admits,
}
use placitum_counter.Buckets.Union.{ref_union-members, All-has_ref}

evict-length-le : {V : Type 0} (half : ℕ) (m : List (String × V)) → length (evict half m) ≤ half
unfolding evict
evict-length-le half [] = omega arith
evict-length-le half (e ∷ m) =
    let rest = evict-length-le half m in
    elim (Bool-cases (leb (length m) half)) [
      | inl small ↦ rw small (leb→le (length m) half small)
      | inr large ↦ rw large rest
    ]

module _ {F : Type 0} ⦃fl : Float64 F⦄ where
  -- `InRange hi v`: neither below 0 nor above `hi`, as the comparisons of the source tell.
  abbrev pub InRange : F → F → Type 0
  InRange hi v = (fl.lt v (fl.of_int (pos 0)) ≡ false) × (fl.lt hi v ≡ false)

  pub lt_asym : (a b : F) → fl.lt a b ≡ true → fl.lt b a ≡ false
  lt_asym a b h = elim (Bool-cases (fl.lt b a)) [
    | inl back ↦ back ∙ sym (fl.lt_trans a b a h back) ∙ fl.lt_irrefl a
    | inr none_back ↦ none_back
  ]

  pub clamp-InRange :
      (v hi : F) → fl.lt (fl.of_int (pos 0)) hi ≡ true → InRange hi (clamp v (fl.of_int (pos 0)) hi)
  unfolding clamp
  clamp-InRange v hi h =
      let zero = fl.of_int (pos 0) in
      elim (Bool-cases (fl.lt v zero)) [
        | inl below ↦ rw below (fl.lt_irrefl zero, lt_asym zero hi h)
        | inr above ↦ elim (Bool-cases (fl.lt hi v)) [
          | inl over ↦ rw (above, over) (lt_asym zero hi h, fl.lt_irrefl hi)
          | inr under ↦ rw (above, under) (above, under)
        ]
      ]

  effective_at-InRange :
      (tier : Tier F) (t : F) (stored : Option F)
      → fl.lt (fl.of_int (pos 0)) tier.max ≡ true
      → InRange tier.max (effective_at tier t stored)
  unfolding effective_at
  effective_at-InRange tier t none h =
      (fl.lt_irrefl (fl.of_int (pos 0)), lt_asym (fl.of_int (pos 0)) tier.max h)
  effective_at-InRange tier t (some s) h =
      clamp-InRange (fl.sub s (fl.mul (rate_per_sec tier) t)) tier.max h

  charged_level-InRange :
      (tier : Tier F) (effective : F) (delta : Option F)
      → fl.lt (fl.of_int (pos 0)) tier.max ≡ true
      → InRange tier.max effective
      → InRange tier.max (charged_level tier effective delta)
  unfolding charged_level
  charged_level-InRange tier effective none h g = g
  charged_level-InRange tier effective (some d) h g = clamp-InRange (fl.add effective d) tier.max h

  -- What every level that `Apply` answers with satisfies.
  abbrev pub LevelInRange : Tiers F → Level F → Type 0
  LevelInRange tiers l =
      (enabled (tier_of tiers l.ref.kind) ≡ true) × InRange (tier_of tiers l.ref.kind).max l.score

  apply_ref-InRange :
      (tiers : Tiers F) (charges : List (Charge F)) (t : F) (r : Ref) (m : List (String × F))
      → admits tiers r ≡ true
      → LevelInRange tiers (apply_ref tiers charges t r m).0
  unfolding apply_ref level admits enabled
  apply_ref-InRange tiers charges t r m h =
      let tier = tier_of tiers r.kind in
      let on = (and-eq-true (enabled tier) (not (r.key == "")) h).0 in
      let positive =
        (and-eq-true (fl.lt (fl.of_int (pos 0)) tier.max) (fl.lt (fl.of_int (pos 0)) tier.loss)
          on).0 in
      (
        on,
        charged_level-InRange tier (effective_at tier t (map_get (store_key r) m))
            (sum_of r none charges) positive
            (effective_at-InRange tier t (map_get (store_key r) m) positive),
      )

  apply_refs-InRange :
      (tiers : Tiers F) (charges : List (Charge F)) (t : F) (rs : List Ref) (m : List (String × F))
      → All (λ r. admits tiers r ≡ true) rs
      → All (LevelInRange tiers) (apply_refs tiers charges t rs m).0
        × (map (λ l. l.ref) (apply_refs tiers charges t rs m).0 ≡ rs)
  unfolding apply_refs level
  apply_refs-InRange tiers charges t [] m h = (tt, refl)
  apply_refs-InRange tiers charges t (r ∷ rs) m h =
      let next = apply_refs-InRange tiers charges t rs (apply_ref tiers charges t r m).1 h.1 in
      ((apply_ref-InRange tiers charges t r m h.0, next.0), ap (◌∷◌ r) next.1)

  -- A key that no reference of the call has keeps its base in every round.
  store_level-other :
      (k key : String) (tier : Tier F) (t : F) (stored delta : Option F) (effective : F)
      (m : List (String × F))
      → (key == k) ≡ false
      → map_get k (store_level key tier t stored delta effective m) ≡ map_get k m
  unfolding store_level
  store_level-other k key tier t stored (some d) effective m h =
      map_get-map_put key k (fl.add effective (fl.mul (rate_per_sec tier) t)) m ∙ rw h refl
  store_level-other k key tier t none none effective m h = refl
  store_level-other k key tier t (some s) none effective m h =
      elim (Bool-cases (fl.le effective (fl.of_int (pos 0)))) [
        | inl empty ↦ rw empty (map_get-map_remove key k m ∙ rw h refl)
        | inr held ↦ rw held refl
      ]

  -- A ledger key that none of the references has keeps its base over the whole loop of
  -- `applyLocal`.
  pub apply_refs-other :
      (k : String) (tiers : Tiers F) (charges : List (Charge F)) (t : F) (rs : List Ref)
      (m : List (String × F))
      → All (λ r. (store_key r == k) ≡ false) rs
      → map_get k (apply_refs tiers charges t rs m).1 ≡ map_get k m
  unfolding apply_refs apply_ref
  apply_refs-other k tiers charges t [] m h = refl
  apply_refs-other k tiers charges t (r ∷ rs) m h =
      let tier = tier_of tiers r.kind in
      let stored = map_get (store_key r) m in
      let delta = sum_of r none charges in
      apply_refs-other k tiers charges t rs (apply_ref tiers charges t r m).1 h.1
      ∙ store_level-other k (store_key r) tier t stored delta
          (charged_level tier (effective_at tier t stored) delta) m h.0

  apply_local-length-le :
      (max : ℕ) (tiers : Tiers F) (charges : List (Charge F)) (refs : List Ref) (t : F)
      (m : List (String × F))
      → length (apply_local max tiers charges refs t m).1 ≤ max
  unfolding apply_local
  apply_local-length-le max tiers charges refs t m =
      let m' = (apply_refs tiers charges t refs m).1 in
      elim (Bool-cases (ltb max (length m'))) [
        | inl full ↦ rw full (omega (arith, evict-length-le (max / 2) m'))
        | inr room ↦ rw room (ground (arith, room))
      ]

  apply_local-bounds :
      (max : ℕ) (tiers : Tiers F) (charges : List (Charge F)) (refs : List Ref) (t : F)
      (m : List (String × F))
      → length m ≤ max
      → All (λ r. admits tiers r ≡ true) refs
      → let out = if is_empty refs then ([], m) else apply_local max tiers charges refs t m in
        All (LevelInRange tiers) out.0 × (map (λ l. l.ref) out.0 ≡ refs) × (length out.1 ≤ max)
  unfolding apply_local
  apply_local-bounds max tiers charges [] t m h g = (tt, refl, h)
  apply_local-bounds max tiers charges (r ∷ refs) t m h g =
      let p = apply_refs-InRange tiers charges t (r ∷ refs) m g in
      (p.0, p.1, apply_local-length-le max tiers charges (r ∷ refs) t m)

  -- `Apply` on the ledger of the process answers with one level for every reference of `refUnion`,
  -- in its order, each on an enabled tier and neither below 0 nor above the tier's maximum, and
  -- leaves a ledger of at most `max` entries when it found one.
  pub apply-bounds :
      (max : ℕ) (tiers : Tiers F) (charges : List (Charge F)) (reads : List Ref) (t : F)
      (m : List (String × F))
      → length m ≤ max
      → All (LevelInRange tiers) (apply max tiers charges reads t m).0
        × (map (λ l. l.ref) (apply max tiers charges reads t m).0
            ≡ ref_union tiers (live tiers charges) reads)
        × (length (apply max tiers charges reads t m).1 ≤ max)
  unfolding apply
  apply-bounds max tiers charges reads t m h =
      let counted = live tiers charges in
      let members = ref_union-members tiers counted reads in
      apply_local-bounds max tiers counted (ref_union tiers counted reads) t m h (
        All-has_ref (λ r. admits tiers r ≡ true) (ref_union tiers counted reads)
          (λ r found. (and-eq-true (admits tiers r) _ (sym (members.0 r) ∙ found)).0))
