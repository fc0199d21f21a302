-- ===== src/Prelude/Lists.antt =====
-- Lists measured by native numbers, searched and filtered by Boolean tests.
use Prim.Native.Nat.{ℕ, zero, suc, ◌+◌, ◌-◌, ◌≤◌}
use mathlib.Core.Logic.{inl, inr}
use mathlib.Core.Path.{subst, subst₂, ◌≡◌, refl, ap}
use mathlib.Core.Bool.{Bool, true, false, ◌||◌}
use mathlib.Core.Option.{none-ne-some, some-injective, Option, none, some}
use mathlib.Core.List.{map, List, [], ◌∷◌, ◌++◌}
use native.Mathlib.Omega.{arith}
use Prim.Native.String.{String}
use text.Mathlib.TextEquality.{eq_iff}
use text.Mathlib.Text.{◌==◌}
use placitum_counter.Prelude.Tests.{if◌then◌else◌, Bool-cases}

module _ {ℓ} {A : Type ℓ} where
  abbrev pub length : List A → ℕ
  length [] = 0
  length (x ∷ xs) = suc (length xs)

  abbrev pub take : ℕ → List A → List A
  take zero xs = []
  take (suc n) [] = []
  take (suc n) (x ∷ xs) = x ∷ take n xs

  abbrev pub drop : ℕ → List A → List A
  drop zero xs = xs
  drop (suc n) [] = []
  drop (suc n) (x ∷ xs) = drop n xs

  -- The elements that pass a test, in order.
  unfoldable pub select : (A → Bool) → List A → List A
  select p [] = []
  select p (x ∷ xs) = let rest = select p xs in if p x then x ∷ rest else rest

  unfoldable pub any : (A → Bool) → List A → Bool
  any p [] = false
  any p (x ∷ xs) = p x || any p xs

  abbrev pub is_empty : List A → Bool
  is_empty [] = true
  is_empty (x ∷ xs) = false

  abbrev pub All {κ} : (A → Type κ) → List A → Type κ
  All P [] = Unit
  All P (x ∷ xs) = P x × All P xs

  pub length-append : (xs ys : List A) → length (xs ++ ys) ≡ length xs + length ys
  length-append [] ys = omega arith
  length-append (x ∷ xs) ys = omega (arith, length-append xs ys)

  pub length-drop : (n : ℕ) (xs : List A) → length (drop n xs) ≡ length xs - n
  length-drop zero xs = omega arith
  length-drop (suc n) [] = omega arith
  length-drop (suc n) (x ∷ xs) = omega (arith, length-drop n xs)

  pub take-append-drop : (n : ℕ) (xs : List A) → take n xs ++ drop n xs ≡ xs
  take-append-drop zero xs = refl
  take-append-drop (suc n) [] = refl
  take-append-drop (suc n) (x ∷ xs) = ap (◌∷◌ x) (take-append-drop n xs)

  pub select-append :
      (p : A → Bool) (xs ys : List A) → select p (xs ++ ys) ≡ select p xs ++ select p ys
  unfolding select
  select-append p [] ys = refl
  select-append p (x ∷ xs) ys = ground (arith, select-append p xs ys)

  pub select-All : (p : A → Bool) (xs : List A) → All (λ x. p x ≡ true) (select p xs)
  unfolding select
  select-All p [] = tt
  select-All p (x ∷ xs) = ground (arith, select-All p xs)

  pub length-select-le : (p : A → Bool) (xs : List A) → length (select p xs) ≤ length xs
  unfolding select
  length-select-le p [] = omega arith
  length-select-le p (x ∷ xs) = ground (arith, length-select-le p xs)

  pub All-append {κ} : (P : A → Type κ) (xs ys : List A) → All P xs → All P ys → All P (xs ++ ys)
  All-append P [] ys hx hy = hy
  All-append P (x ∷ xs) ys hx hy = (hx.0, All-append P xs ys hx.1 hy)

  pub All-imp {κ μ} :
      (P : A → Type κ) (Q : A → Type μ) (f : (a : A) → P a → Q a) (xs : List A)
      → All P xs
      → All Q xs
  All-imp P Q f [] h = tt
  All-imp P Q f (x ∷ xs) h = (f x h.0, All-imp P Q f xs h.1)

pub map-select-cons {ℓ κ} :
    {A : Type ℓ} {B : Type κ} (f : A → B) (p : A → Bool) (x : A) (xs : List A)
    → map f (select p (x ∷ xs)) ≡ (if p x then f x ∷ [] else []) ++ map f (select p xs)
unfolding select
map-select-cons f p x xs = elim (Bool-cases (p x)) [ inl e ↦ rw e refl | inr e ↦ rw e refl ]

-- Membership of a text in a list of texts.
unfoldable pub contains : List String → String → Bool
contains [] want = false
contains (v ∷ vs) want = if v == want then true else contains vs want

-- A Go map with text keys as a list of pairs.
unfoldable pub map_get {ℓ} : {V : Type ℓ} → String → List (String × V) → Option V
map_get k [] = none
map_get k ((j, v) ∷ m) = if j == k then some v else map_get k m

pub map_get-All {ℓ κ} :
    {V : Type ℓ} (P : String → V → Type κ) (m : List (String × V)) (k : String) (v : V)
    → All (λ e. P e.0 e.1) m
    → map_get k m ≡ some v
    → P k v
unfolding map_get
map_get-All P [] k v h e = absurd (none-ne-some v e)
map_get-All P ((j, w) ∷ m) k v h e = elim (Bool-cases (j == k)) [
  | inl same ↦
      subst₂ P ((eq_iff j k).0 same)
        (some-injective w v (subst (λ b. (if b then some w else map_get k m) ≡ some v) same e)) h.0
  | inr other ↦
      map_get-All P m k v h.1 (subst (λ b. (if b then some w else map_get k m) ≡ some v) other e)
]

module _ {ℓ} {V : Type ℓ} where
  -- `delete(m, k)`
  unfoldable pub map_remove : String → List (String × V) → List (String × V)
  map_remove k [] = []
  map_remove k ((j, v) ∷ m) = let rest = map_remove k m in if j == k then rest else (j, v) ∷ rest

  -- `m[k] = v`
  unfoldable pub map_put : String → V → List (String × V) → List (String × V)
  map_put k v [] = (k, v) ∷ []
  map_put k v ((j, w) ∷ m) =
      let rest = map_put k v m in if j == k then (k, v) ∷ m else (j, w) ∷ rest

  pub map_get-map_put :
      (k j : String) (v : V) (m : List (String × V))
      → map_get j (map_put k v m) ≡ (if k == j then some v else map_get j m)
  unfolding map_get map_put
  map_get-map_put k j v [] = refl
  map_get-map_put k j v ((i, w) ∷ m) =
      ground (arith, eq_iff k j, eq_iff i k, eq_iff i j, map_get-map_put k j v m)

  pub map_get-map_remove :
      (k j : String) (m : List (String × V))
      → map_get j (map_remove k m) ≡ (if k == j then none else map_get j m)
  unfolding map_get map_remove
  map_get-map_remove k j [] = ground arith
  map_get-map_remove k j ((i, w) ∷ m) =
      ground (arith, eq_iff k j, eq_iff i k, eq_iff i j, map_get-map_remove k j m)
