-- ===== src/Buckets/Agree.antt =====
-- internal/buckets/buckets.go: the levels of `applyRedis`, and what the two stores agree on.
use placitum_counter.Prelude.{
  >>=-eq-ok, All, Bool, Bool-cases, List, Option, [], and-eq-true, false, if◌then◌else◌, inl, inr,
  is_empty, map, none, not, ok, ok_injective, pos, refl, some, subst, sym, true, ◌==◌, ◌∙◌, ◌∷◌,
  ◌≡◌,
}
use placitum_counter.Prelude.Float.{Float64}
use placitum_counter.Buckets.{
  ref_union, live, Tier, Ref, Charge, Level, Tiers, enabled, tier_of, admits, clamp, level, sum_of,
  rate_per_sec, effective_at,
}
use placitum_counter.Buckets.Ledger.{InRange, LevelInRange, lt_asym, clamp-InRange}
use placitum_counter.Buckets.Union.{ref_union-members, All-has_ref}
use placitum_counter.Buckets.Remote.{
  apply_remote, Command, Exec, settle, settle_ref, settle_refs, fixed, pipeline, apply_redis,
}

module _ {F : Type 0} ⦃fl : Float64 F⦄ where
  admits-positive :
      (tiers : Tiers F) (r : Ref)
      → admits tiers r ≡ true
      → (enabled (tier_of tiers r.kind) ≡ true)
        × (fl.lt (fl.of_int (pos 0)) (tier_of tiers r.kind).max ≡ true)
  unfolding admits enabled
  admits-positive tiers r h =
      let tier = tier_of tiers r.kind in
      let on = (and-eq-true (enabled tier) (not (r.key == "")) h).0 in
      (
        on,
        (and-eq-true (fl.lt (fl.of_int (pos 0)) tier.max) (fl.lt (fl.of_int (pos 0)) tier.loss)
            on).0,
      )

  -- The level without its fix, brought between 0 and the maximum.
  abbrev bounded : F → F → F × Bool
  bounded hi v = if fl.lt v (fl.of_int (pos 0)) then (fl.of_int (pos 0), false) else (v, false)

  abbrev capped : F → F → Bool → F × Bool
  capped hi v fix = if fl.lt hi v then (hi, fix) else bounded hi v

  bounded-InRange :
      (hi v : F)
      → fl.lt (fl.of_int (pos 0)) hi ≡ true
      → fl.lt hi v ≡ false
      → InRange hi (bounded hi v).0
  bounded-InRange hi v h g = elim (Bool-cases (fl.lt v (fl.of_int (pos 0)))) [
    | inl below ↦ rw below (fl.lt_irrefl (fl.of_int (pos 0)), lt_asym (fl.of_int (pos 0)) hi h)
    | inr above ↦ rw above (above, g)
  ]

  capped-InRange :
      (hi v : F) (fix : Bool) → fl.lt (fl.of_int (pos 0)) hi ≡ true → InRange hi (capped hi v fix).0
  capped-InRange hi v fix h = elim (Bool-cases (fl.lt hi v)) [
    | inl over ↦ rw over (lt_asym (fl.of_int (pos 0)) hi h, fl.lt_irrefl hi)
    | inr under ↦ rw under (bounded-InRange hi v h under)
  ]

  settle-InRange :
      (tier : Tier F) (t : F) (sum : Option F) (raw : F)
      → fl.lt (fl.of_int (pos 0)) tier.max ≡ true
      → InRange tier.max (settle tier t sum raw).0
  unfolding settle
  settle-InRange tier t none raw h =
      capped-InRange tier.max (fl.sub raw (fl.mul (rate_per_sec tier) t)) false h
  settle-InRange tier t (some sum) raw h =
      let effective = fl.sub raw (fl.mul (rate_per_sec tier) t) in
      elim (Bool-cases (fl.lt effective sum)) [
        | inl short ↦ rw short (clamp-InRange sum tier.max h)
        | inr enough ↦ rw enough (capped-InRange tier.max effective true h)
      ]

  -- For a reference that is only read, on a tier with a positive maximum, the same stored base gives
  -- the same level in Redis and in the ledger of the process, and nothing is written back.
  pub settle-eq-effective_at :
      (tier : Tier F) (t raw : F)
      → fl.lt (fl.of_int (pos 0)) tier.max ≡ true
      → settle tier t none raw ≡ (effective_at tier t (some raw), false)
  unfolding settle effective_at clamp
  settle-eq-effective_at tier t raw h =
      let v = fl.sub raw (fl.mul (rate_per_sec tier) t) in
      elim (Bool-cases (fl.lt tier.max v)) [
        | inl over ↦
            let not_below = lt_asym (fl.of_int (pos 0)) v (fl.lt_trans _ tier.max v h over) in
            rw (over, not_below) refl
        | inr under ↦ elim (Bool-cases (fl.lt v (fl.of_int (pos 0)))) [
          | inl below ↦ rw (under, below) refl
          | inr above ↦ rw (under, above) refl
        ]
      ]

  settle_ref-InRange :
      (tiers : Tiers F) (charges : List (Charge F)) (t : F) (r : Ref) (answer : Option F)
      → admits tiers r ≡ true
      → LevelInRange tiers (settle_ref tiers charges t r answer).0
        × ((settle_ref tiers charges t r answer).0.ref ≡ r)
  unfolding settle_ref level
  settle_ref-InRange tiers charges t r none h =
      let p = admits-positive tiers r h in
      ((p.0, (fl.lt_irrefl (fl.of_int (pos 0)), lt_asym (fl.of_int (pos 0)) _ p.1)), refl)
  settle_ref-InRange tiers charges t r (some raw) h =
      let p = admits-positive tiers r h in
      ((p.0, settle-InRange (tier_of tiers r.kind) t (sum_of r none charges) raw p.1), refl)

  settle_refs-InRange :
      (tiers : Tiers F) (charges : List (Charge F)) (t : F) (rs : List Ref)
      (answers : List (Option F))
      → All (λ r. admits tiers r ≡ true) rs
      → All (LevelInRange tiers) (settle_refs tiers charges t rs answers).0
        × (map (λ l. l.ref) (settle_refs tiers charges t rs answers).0 ≡ rs)
  unfolding settle_refs
  settle_refs-InRange tiers charges t [] answers h = (tt, refl)
  settle_refs-InRange tiers charges t (r ∷ rs) [] h =
      let a = settle_ref-InRange tiers charges t r none h.0 in
      let b = settle_refs-InRange tiers charges t rs [] h.1 in ((a.0, b.0), λ i. a.1 i ∷ b.1 i)
  settle_refs-InRange tiers charges t (r ∷ rs) (answer ∷ answers) h =
      let a = settle_ref-InRange tiers charges t r answer h.0 in
      let b = settle_refs-InRange tiers charges t rs answers h.1 in ((a.0, b.0), λ i. a.1 i ∷ b.1 i)

  fixed-levels :
      (exec : Exec F) (levels out : List (Level F)) (fixes : List (Command F))
      → fixed exec (levels, fixes) ≡ ok out
      → levels ≡ out
  fixed-levels exec levels out [] h = ok_injective levels out h
  fixed-levels exec levels out (fix ∷ fixes) h =
      ok_injective levels out (>>=-eq-ok (exec (fix ∷ fixes)) (λ answers. ok levels) out h).2

  apply_redis-bounds :
      (exec : Exec F) (tiers : Tiers F) (charges : List (Charge F)) (refs : List Ref) (t : F)
      (out : List (Level F))
      → All (λ r. admits tiers r ≡ true) refs
      → apply_redis exec tiers charges refs t ≡ ok out
      → All (LevelInRange tiers) out × (map (λ l. l.ref) out ≡ refs)
  unfolding apply_redis
  apply_redis-bounds exec tiers charges refs t out h e =
      let (answers, run, last) = >>=-eq-ok (exec (pipeline tiers charges t refs)) _ out e in
      let settled = settle_refs tiers charges t refs answers in
      subst (λ ls. All (LevelInRange tiers) ls × (map (λ l. l.ref) ls ≡ refs))
        (fixed-levels exec settled.0 out settled.1 last)
        (settle_refs-InRange tiers charges t refs answers h)

  answer-bounds :
      (exec : Exec F) (tiers : Tiers F) (charges : List (Charge F)) (refs : List Ref) (t : F)
      (out : List (Level F))
      → All (λ r. admits tiers r ≡ true) refs
      → (if is_empty refs then ok [] else apply_redis exec tiers charges refs t) ≡ ok out
      → All (LevelInRange tiers) out × (map (λ l. l.ref) out ≡ refs)
  answer-bounds exec tiers charges [] t out h e =
      subst (λ ls. All (LevelInRange tiers) ls × (map (λ l. l.ref) ls ≡ [])) (ok_injective [] out e)
        (tt, refl)
  answer-bounds exec tiers charges (r ∷ refs) t out h e =
      apply_redis-bounds exec tiers charges (r ∷ refs) t out h e

  -- Whatever the Redis client answers, when `Apply` succeeds it gives one level for each reference of
  -- `refUnion`, in its order, on an enabled tier and neither below 0 nor above the tier's maximum.
  pub apply_remote-bounds :
      (exec : Exec F) (tiers : Tiers F) (charges : List (Charge F)) (reads : List Ref) (t : F)
      (out : List (Level F))
      → apply_remote exec tiers charges reads t ≡ ok out
      → All (LevelInRange tiers) out
        × (map (λ l. l.ref) out ≡ ref_union tiers (live tiers charges) reads)
  unfolding apply_remote
  apply_remote-bounds exec tiers charges reads t out e =
      let counted = live tiers charges in
      let refs = ref_union tiers counted reads in
      answer-bounds exec tiers counted refs t out
        (All-has_ref (λ r. admits tiers r ≡ true) refs
          (λ r found.
            (and-eq-true (admits tiers r) _
              (sym ((ref_union-members tiers counted reads).0 r) ∙ found)).0))
        e
