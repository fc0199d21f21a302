-- ===== src/Prelude/Results.antt =====
-- Go's `error` results. An error carries the format text of its message without the arguments.
use Prim.Native.String.{String}
use mathlib.Core.Path.{ap, subst, ◌≡◌, refl}
use mathlib.Core.Bool.{Bool, true, false}
use mathlib.Core.List.{List, [], ◌∷◌}
use placitum_counter.Prelude.Lists.{All}

pub data Result {ℓ} (A : Type ℓ) : Type ℓ where
  ok : A → Result A
  err : String → Result A

infixl 5 ◌>>=◌ ◌>>◌
abbrev pub ◌>>=◌ {ℓ κ} : {A : Type ℓ} {B : Type κ} → Result A → (A → Result B) → Result B
ok a >>= f = f a
err e >>= f = err e

abbrev pub ◌>>◌ {ℓ} : {B : Type ℓ} → Result (Unit {0}) → Result B → Result B
ok u >> k = k
err e >> k = err e

-- `if bad { return fmt.Errorf(…) }`.
abbrev pub fail_if : Bool → String → Result (Unit {0})
fail_if true e = err e
fail_if false e = ok tt

abbrev pub IsOk {ℓ} : {A : Type ℓ} → Result A → Type 0
IsOk (ok a) = Unit
IsOk (err e) = ⊥

abbrev pub is_ok {ℓ} : {A : Type ℓ} → Result A → Bool
is_ok (ok a) = true
is_ok (err e) = false

-- A loop that stops at the first error.
unfoldable pub each {ℓ} : {A : Type ℓ} → (A → Result (Unit {0})) → List A → Result (Unit {0})
each f [] = ok tt
each f (x ∷ xs) = let rest = each f xs in f x >> rest

pub >>-IsOk {ℓ} :
    {B : Type ℓ} (m : Result (Unit {0})) (k : Result B) → IsOk (m >> k) → IsOk m × IsOk k
>>-IsOk (ok u) k h = (tt, h)
>>-IsOk (err e) k h = absurd h

pub IsOk->> {ℓ} :
    {B : Type ℓ} (m : Result (Unit {0})) (k : Result B) → IsOk m → IsOk k → IsOk (m >> k)
IsOk->> (ok u) k h g = g
IsOk->> (err e) k h g = absurd h

pub fail_if-IsOk : (b : Bool) (e : String) → IsOk (fail_if b e) → b ≡ false
fail_if-IsOk true e h = absurd h
fail_if-IsOk false e h = refl

pub each-IsOk {ℓ} :
    {A : Type ℓ} (f : A → Result (Unit {0})) (xs : List A)
    → IsOk (each f xs)
    → All (λ x. IsOk (f x)) xs
unfolding each
each-IsOk f [] h = tt
each-IsOk f (x ∷ xs) h = let p = >>-IsOk (f x) (each f xs) h in (p.0, each-IsOk f xs p.1)

-- Past a guard: its test failed, and the rest was accepted.
pub fail_if->>-IsOk {ℓ} :
    {B : Type ℓ} (b : Bool) (e : String) (k : Result B)
    → IsOk (fail_if b e >> k)
    → (b ≡ false) × IsOk k
fail_if->>-IsOk true e k h = absurd h
fail_if->>-IsOk false e k h = (refl, h)

-- A loop that rewrites each element and stops at the first error.
unfoldable pub each_map {ℓ} : {A : Type ℓ} → (A → Result A) → List A → Result (List A)
each_map f [] = ok []
each_map f (x ∷ xs) = let rest = each_map f xs in f x >>= λ y. rest >>= λ ys. ok (y ∷ ys)

pub >>=-eq-ok {ℓ κ} :
    {A : Type ℓ} {B : Type κ} (m : Result A) (f : A → Result B) (b : B)
    → (m >>= f) ≡ ok b
    → (a : A) × (m ≡ ok a) × (f a ≡ ok b)
>>=-eq-ok (ok a) f b h = (a, refl, h)
>>=-eq-ok (err e) f b h = cc

pub >>-eq-ok {ℓ} :
    {B : Type ℓ} (m : Result (Unit {0})) (k : Result B) (b : B)
    → (m >> k) ≡ ok b
    → IsOk m × (k ≡ ok b)
>>-eq-ok (ok u) k b h = (tt, h)
>>-eq-ok (err e) k b h = cc

abbrev ok_or {ℓ} : {A : Type ℓ} → A → Result A → A
ok_or d (ok a) = a
ok_or d (err e) = d

pub ok_injective {ℓ} : {A : Type ℓ} (a b : A) → ok a ≡ ok b → a ≡ b
ok_injective a b h = ap (ok_or a) h

pub each_map-All {ℓ κ} :
    {A : Type ℓ} (f : A → Result A) (P : A → Type κ)
    → ((a b : A) → f a ≡ ok b → P b)
    → (xs ys : List A) → each_map f xs ≡ ok ys
    → All P ys
unfolding each_map
each_map-All f P step [] ys h = subst (All P) (ok_injective [] ys h) tt
each_map-All f P step (x ∷ xs) ys h =
    let a = >>=-eq-ok (f x) _ ys h in
    let b = >>=-eq-ok (each_map f xs) _ ys a.2 in
    subst (All P) (ok_injective (a.0 ∷ b.0) ys b.2)
      (step x a.0 a.1, each_map-All f P step xs b.0 b.1)
