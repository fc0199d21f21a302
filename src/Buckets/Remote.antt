-- ===== src/Buckets/Remote.antt =====
-- internal/buckets/buckets.go: `applyRedis`. The client is a parameter: a pipeline of commands goes
-- in, and the number of each read comes out, or nothing for a command that fails. A lifetime is in
-- seconds, before its conversion to a `Duration`.
use placitum_counter.Prelude.{
  Bool, List, Option, Result, String, [], false, if◌then◌else◌, is_empty, none, not, ok, pos, some,
  true, ◌++◌, ◌>>=◌, ◌∷◌,
}
use placitum_counter.Prelude.Float.{Float64}
use placitum_counter.Buckets.{
  Tier, Ref, Charge, Level, Tiers, store_key, enabled, rate_per_sec, tier_of, clamp, level, sum_of,
  live, ref_union,
}

pub data Command (F : Type 0) : Type 0 where
  set_nx : String → F → F → Command F
  incr_by_float : String → F → Command F
  p_expire : String → F → Command F
  get : String → Command F
  set : String → F → F → Command F

-- The answers of `Exec`: one for each reference, or the error of the pipeline.
abbrev pub Exec : Type 0 → Type 0
Exec F = List (Command F) → Result (List (Option F))

module _ {F : Type 0} ⦃fl : Float64 F⦄ where
  -- `Tier.lifetime`
  unfoldable pub lifetime : Tier F → F
  unfolding enabled
  lifetime t = if not (enabled t) then fl.of_int (pos 0) else fl.div (fl.of_int (pos 100)) t.loss

  -- The commands for a reference, with the sum of its charges.
  unfoldable pub commands : Tier F → F → String → Option F → List (Command F)
  unfolding lifetime rate_per_sec
  commands tier t key none = get key ∷ []
  commands tier t key (some delta) =
      set_nx key (fl.mul (rate_per_sec tier) t) (lifetime tier)
      ∷ incr_by_float key delta
      ∷ p_expire key (lifetime tier)
      ∷ []

  unfoldable pub pipeline : Tiers F → List (Charge F) → F → List Ref → List (Command F)
  unfolding commands
  pipeline tiers charges t [] = []
  pipeline tiers charges t (r ∷ rs) =
      commands (tier_of tiers r.kind) t (store_key r) (sum_of r none charges)
      ++ pipeline tiers charges t rs

  -- `fixer`
  unfoldable pub fixer : String → Tier F → F → F → Command F
  unfolding lifetime rate_per_sec
  fixer key tier effective t =
      set key (fl.add (fl.mul (rate_per_sec tier) t) effective) (lifetime tier)

  -- The level that a number read from the store gives, and whether it must be fixed there.
  unfoldable pub settle : Tier F → F → Option F → F → F × Bool
  unfolding clamp rate_per_sec
  settle tier t none raw =
      let effective = fl.sub raw (fl.mul (rate_per_sec tier) t) in
      if fl.lt tier.max effective
      then (tier.max, false)
      else if fl.lt effective (fl.of_int (pos 0))
      then (fl.of_int (pos 0), false)
      else (effective, false)
  settle tier t (some sum) raw =
      let effective = fl.sub raw (fl.mul (rate_per_sec tier) t) in
      if fl.lt effective sum
      then (clamp sum (fl.of_int (pos 0)) tier.max, true)
      else if fl.lt tier.max effective
      then (tier.max, true)
      else if fl.lt effective (fl.of_int (pos 0))
      then (fl.of_int (pos 0), false)
      else (effective, false)

  -- One round of the loop over the answers.
  unfoldable pub settle_ref :
      Tiers F → List (Charge F) → F → Ref → Option F → Level F × List (Command F)
  unfolding settle fixer level
  settle_ref tiers charges t r none =
      (record { ref = r; score = fl.of_int (pos 0); percent = fl.of_int (pos 0) }, [])
  settle_ref tiers charges t r (some raw) =
      let tier = tier_of tiers r.kind in
      let (effective, fix) = settle tier t (sum_of r none charges) raw in
      (level r tier effective, if fix then fixer (store_key r) tier effective t ∷ [] else [])

  -- A missing answer counts as a failed command.
  unfoldable pub settle_refs :
      Tiers F → List (Charge F) → F → List Ref → List (Option F) → List (Level F) × List (Command F)
  unfolding settle_ref
  settle_refs tiers charges t [] answers = ([], [])
  settle_refs tiers charges t (r ∷ rs) [] =
      let (l, fix) = settle_ref tiers charges t r none in
      let (ls, fixes) = settle_refs tiers charges t rs [] in (l ∷ ls, fix ++ fixes)
  settle_refs tiers charges t (r ∷ rs) (a ∷ answers) =
      let (l, fix) = settle_ref tiers charges t r a in
      let (ls, fixes) = settle_refs tiers charges t rs answers in (l ∷ ls, fix ++ fixes)

  -- The second pipeline, which writes the fixes.
  abbrev pub fixed : Exec F → List (Level F) × List (Command F) → Result (List (Level F))
  fixed exec (levels, []) = ok levels
  fixed exec (levels, fix ∷ fixes) = exec (fix ∷ fixes) >>= λ answers. ok levels

  -- `applyRedis`
  unfoldable pub apply_redis :
      Exec F → Tiers F → List (Charge F) → List Ref → F → Result (List (Level F))
  unfolding pipeline settle_refs
  apply_redis exec tiers charges refs t = exec (pipeline tiers charges t refs) >>= λ answers.
      fixed exec (settle_refs tiers charges t refs answers)

  -- `Store.Apply` on a store with a Redis client.
  unfoldable pub apply_remote :
      Exec F → Tiers F → List (Charge F) → List Ref → F → Result (List (Level F))
  unfolding apply_redis
  apply_remote exec tiers charges reads t =
      let counted = live tiers charges in
      let refs = ref_union tiers counted reads in
      if is_empty refs then ok [] else apply_redis exec tiers counted refs t
