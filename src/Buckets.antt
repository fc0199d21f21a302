-- ===== src/Buckets.antt =====
-- internal/buckets/buckets.go: leaky buckets, in the ledger of the process; Remote has
-- those in Redis. The clock is the argument
-- `t`, the seconds since `epochStart`. `sort.Slice` is an insertion sort here: the references that it
-- sorts are distinct, so every sort gives the same list. `evict` drops entries in the order of the
-- list, where Go leaves the order open.
use placitum_counter.Prelude.{
  Bool, List, Option, String, [], any, beq, codes, false, if◌then◌else◌, is_empty, leb, length, ltb,
  map, map_get, map_put, map_remove, none, not, pos, select, some, ℕ, ◌&&◌, ◌++◌, ◌/◌, ◌==◌, ◌||◌,
  ◌∷◌,
}
use Prim.Native.String
use Prim.Native.String.{compare}
use text.Mathlib.Text.{is_lt}
use placitum_counter.Prelude.Float.{Float64}
pub mod Union
pub mod Ledger
pub mod Remote
pub mod Agree
pub mod Store

pub record Tier (F : Type 0) : Type 0 where
  pub max : F
  pub loss : F

pub record Ref : Type 0 where
  pub kind : String
  pub key : String

pub record Charge (F : Type 0) : Type 0 where
  pub ref : Ref
  pub add : F

pub record Level (F : Type 0) : Type 0 where
  pub ref : Ref
  pub score : F
  pub percent : F

abbrev pub Tiers : Type 0 → Type 0
Tiers F = List (String × Tier F)

unfoldable pub same_ref : Ref → Ref → Bool
same_ref a b = a.kind == b.kind && a.key == b.key

unfoldable pub has_ref : List Ref → Ref → Bool
unfolding same_ref
has_ref [] r = false
has_ref (x ∷ xs) r = same_ref x r || has_ref xs r

-- The order of `sort.Slice` in `refUnion`.
unfoldable pub before : Ref → Ref → Bool
before a b = if a.kind == b.kind then is_lt (compare a.key b.key) else is_lt (compare a.kind b.kind)

unfoldable pub insert_ref : Ref → List Ref → List Ref
insert_ref r [] = r ∷ []
insert_ref r (x ∷ xs) = let rest = insert_ref r xs in if before r x then r ∷ x ∷ xs else x ∷ rest

unfoldable pub sort_refs : List Ref → List Ref
unfolding insert_ref
sort_refs [] = []
sort_refs (x ∷ xs) = insert_ref x (sort_refs xs)

-- `Store.key`
unfoldable pub store_key : Ref → String
store_key r = String.◌++◌ "cnt:bkt:" (String.◌++◌ r.kind (String.◌++◌ ":" r.key))

-- `for key := range m { delete(m, key); if len(m) <= half { break } }`
unfoldable pub evict {ℓ} : {V : Type ℓ} → ℕ → List (String × V) → List (String × V)
evict half [] = []
evict half (e ∷ m) = let rest = evict half m in if leb (length m) half then m else rest

module _ {F : Type 0} ⦃fl : Float64 F⦄ where
  -- `Tier.Enabled`
  unfoldable pub enabled : Tier F → Bool
  enabled t = fl.lt (fl.of_int (pos 0)) t.max && fl.lt (fl.of_int (pos 0)) t.loss

  -- `Tier.ratePerSec`
  unfoldable pub rate_per_sec : Tier F → F
  rate_per_sec t = fl.mul (fl.div t.loss (fl.of_int (pos 100))) t.max

  -- A map gives the zero tier for a kind that it lacks.
  abbrev or_zero_tier : Option (Tier F) → Tier F
  or_zero_tier none = record { max = fl.of_int (pos 0); loss = fl.of_int (pos 0) }
  or_zero_tier (some t) = t

  unfoldable pub tier_of : Tiers F → String → Tier F
  tier_of tiers kind = or_zero_tier (map_get kind tiers)

  -- The guards of `add` in `refUnion`.
  unfoldable pub admits : Tiers F → Ref → Bool
  unfolding enabled tier_of
  admits tiers r = enabled (tier_of tiers r.kind) && not (r.key == "")

  -- `add` of `refUnion`: `out` holds what was seen.
  unfoldable pub add_refs : Tiers F → List Ref → List Ref → List Ref
  add_refs tiers out [] = out
  add_refs tiers out (r ∷ rs) =
      add_refs tiers
        (if not (admits tiers r) then out else if has_ref out r then out else out ++ (r ∷ [])) rs

  -- `refUnion`
  unfoldable pub ref_union : Tiers F → List (Charge F) → List Ref → List Ref
  ref_union tiers charges reads =
      sort_refs (add_refs tiers (add_refs tiers [] (map (λ c. c.ref) charges)) reads)

  -- `clamp`
  unfoldable pub clamp : F → F → F → F
  clamp v lo hi = if fl.lt v lo then lo else if fl.lt hi v then hi else v

  -- `level`
  unfoldable pub level : Ref → Tier F → F → Level F
  level r tier effective = record {
    ref = r;
    score = effective;
    percent =
        if fl.lt (fl.of_int (pos 0)) tier.max
        then fl.mul (fl.div effective tier.max) (fl.of_int (pos 100))
        else fl.of_int (pos 0);
  }

  -- `sums[ref]`: the sum of the charges of a reference, none where it has no charge.
  abbrev add_to : Option F → F → Option F
  add_to none a = some (fl.add (fl.of_int (pos 0)) a)
  add_to (some s) a = some (fl.add s a)

  unfoldable pub sum_of : Ref → Option F → List (Charge F) → Option F
  sum_of r acc [] = acc
  sum_of r acc (c ∷ cs) = sum_of r (if same_ref c.ref r then add_to acc c.add else acc) cs

  -- The level that a stored base stands for at `t`: 0 where there is none.
  unfoldable pub effective_at : Tier F → F → Option F → F
  unfolding clamp rate_per_sec
  effective_at tier t none = fl.of_int (pos 0)
  effective_at tier t (some stored) =
      clamp (fl.sub stored (fl.mul (rate_per_sec tier) t)) (fl.of_int (pos 0)) tier.max

  -- The level of a reference, with what is charged to it.
  unfoldable pub charged_level : Tier F → F → Option F → F
  unfolding clamp
  charged_level tier effective none = effective
  charged_level tier effective (some delta) =
      clamp (fl.add effective delta) (fl.of_int (pos 0)) tier.max

  -- What the ledger holds after a reference: a charge is stored, an empty bucket is dropped.
  unfoldable pub store_level :
      String → Tier F → F → Option F → Option F → F → List (String × F) → List (String × F)
  unfolding rate_per_sec
  store_level key tier t stored (some delta) effective m =
      map_put key (fl.add effective (fl.mul (rate_per_sec tier) t)) m
  store_level key tier t none none effective m = m
  store_level key tier t (some s) none effective m =
      if fl.le effective (fl.of_int (pos 0)) then map_remove key m else m

  -- One round of the loop of `applyLocal`.
  unfoldable pub apply_ref :
      Tiers F → List (Charge F) → F → Ref → List (String × F) → Level F × List (String × F)
  unfolding effective_at charged_level store_level
  apply_ref tiers charges t r m =
      let tier = tier_of tiers r.kind in
      let key = store_key r in
      let stored = map_get key m in
      let delta = sum_of r none charges in
      let effective = charged_level tier (effective_at tier t stored) delta in
      (level r tier effective, store_level key tier t stored delta effective m)

  unfoldable pub apply_refs :
      Tiers F
      → List (Charge F)
      → F
      → List Ref
      → List (String × F)
      → List (Level F) × List (String × F)
  unfolding apply_ref
  apply_refs tiers charges t [] m = ([], m)
  apply_refs tiers charges t (r ∷ rs) m =
      let (l, m') = apply_ref tiers charges t r m in
      let (ls, m'') = apply_refs tiers charges t rs m' in (l ∷ ls, m'')

  -- `applyLocal`; `max` is the bound of the ledger.
  unfoldable pub apply_local :
      ℕ
      → Tiers F
      → List (Charge F)
      → List Ref
      → F
      → List (String × F)
      → List (Level F) × List (String × F)
  unfolding apply_refs evict
  apply_local max tiers charges refs t m =
      let (levels, m') = apply_refs tiers charges t refs m in
      (levels, if ltb max (length m') then evict (max / 2) m' else m')

  -- The charges that count: on an enabled tier, and not 0.
  unfoldable pub live : Tiers F → List (Charge F) → List (Charge F)
  unfolding enabled tier_of
  live tiers charges =
      select (λ c. enabled (tier_of tiers c.ref.kind) && not (fl.eq c.add (fl.of_int (pos 0))))
        charges

  -- `Store.Apply` on a store without a Redis client.
  unfoldable pub apply :
      ℕ
      → Tiers F
      → List (Charge F)
      → List Ref
      → F
      → List (String × F)
      → List (Level F) × List (String × F)
  unfolding apply_local
  apply max tiers charges reads t m =
      let counted = live tiers charges in
      let refs = ref_union tiers counted reads in
      if is_empty refs then ([], m) else apply_local max tiers counted refs t m

abbrev colon : String → Bool
colon addr = any (λ c. beq c b':') (codes addr)

-- `IPKey`
unfoldable pub ip_key : String → String
ip_key addr =
    if addr == ""
    then ""
    else if colon addr
    then String.◌++◌ addr "/128"
    else String.◌++◌ addr "/32"
