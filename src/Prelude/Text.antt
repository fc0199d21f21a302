-- ===== src/Prelude/Text.antt =====
-- Go texts as lists of code points, with what the source uses of `strings` and `utf8`. Beyond ASCII,
-- `lower` and `fold` map the runes that go to an ASCII letter and leave the others, so a comparison
-- with an ASCII text is exact.
use Prim.Native.Nat.{ℕ, ◌+◌, ◌≤◌}
use Prim.Native.Char.{code}
use Prim.Native.String
use Prim.Native.String.{String}
use text.Mathlib.TextLemmas.{nil-append, cons-append}
use mathlib.Core.Path.{◌≡◌, refl, ap, ◌∙◌}
use mathlib.Core.Bool.{Bool, true, false, ◌&&◌, ◌||◌}
use mathlib.Core.List.{List, [], ◌∷◌, ◌++◌, map}
use native.Mathlib.Omega.{arith}
use placitum_counter.Prelude.Tests.{ltb, leb, beq, if◌then◌else◌}
use placitum_counter.Prelude.Lists.{length}

abbrev pub codes : String → List ℕ
codes String.[] = []
codes (String.◌∷◌ c s) = code c ∷ codes s

unfoldable pub text_eq : List ℕ → List ℕ → Bool
text_eq [] [] = true
text_eq [] (d ∷ t) = false
text_eq (c ∷ s) [] = false
text_eq (c ∷ s) (d ∷ t) = beq c d && text_eq s t

unfoldable pub is_upper : ℕ → Bool
is_upper c = leb b'A' c && leb c b'Z'

unfoldable pub is_lower : ℕ → Bool
is_lower c = leb b'a' c && leb c b'z'

unfoldable pub is_digit : ℕ → Bool
is_digit c = leb b'0' c && leb c b'9'

-- `unicode.ToLower`
unfoldable pub lower : ℕ → ℕ
unfolding is_upper
lower c =
    if is_upper c then c + 32 else if beq c 0x212a then b'k' else if beq c 0x130 then b'i' else c

-- One rune for each orbit of `unicode.SimpleFold`.
unfoldable pub fold : ℕ → ℕ
unfolding is_upper
fold c =
    if is_upper c then c + 32 else if beq c 0x212a then b'k' else if beq c 0x17f then b's' else c

-- `strings.EqualFold`
unfoldable pub equal_fold : List ℕ → List ℕ → Bool
unfolding text_eq fold
equal_fold s t = text_eq (map fold s) (map fold t)

-- `unicode.IsSpace`
unfoldable pub is_space : ℕ → Bool
is_space c =
    (leb 9 c && leb c 13)
    || beq c 0x20
    || beq c 0x85
    || beq c 0xa0
    || beq c 0x1680
    || (leb 0x2000 c && leb c 0x200a)
    || beq c 0x2028
    || beq c 0x2029
    || beq c 0x202f
    || beq c 0x205f
    || beq c 0x3000

unfoldable pub trim_left : List ℕ → List ℕ
unfolding is_space
trim_left [] = []
trim_left (c ∷ s) = let rest = trim_left s in if is_space c then rest else c ∷ s

unfoldable pub trim_right : List ℕ → List ℕ
unfolding is_space
trim_right [] = []
trim_right (c ∷ s) = elim (trim_right s) [
  | [] ↦ if is_space c then [] else c ∷ []
  | d ∷ t ↦ c ∷ d ∷ t
]

-- `strings.TrimSpace`
unfoldable pub trim_space : List ℕ → List ℕ
unfolding trim_left trim_right
trim_space s = trim_right (trim_left s)

-- `strings.ToLower`
abbrev pub to_lower : List ℕ → List ℕ
to_lower = map lower

-- The length of a rune's UTF-8 encoding.
unfoldable pub rune_len : ℕ → ℕ
rune_len c = if ltb c 0x80 then 1 else if ltb c 0x800 then 2 else if ltb c 0x10000 then 3 else 4

-- `len(s)`: the length in bytes.
unfoldable pub byte_len : List ℕ → ℕ
unfolding rune_len
byte_len [] = 0
byte_len (c ∷ s) = rune_len c + byte_len s

pub length-le-byte_len : (s : List ℕ) → length s ≤ byte_len s
unfolding byte_len
length-le-byte_len [] = omega arith
length-le-byte_len (c ∷ s) = ground (arith, length-le-byte_len s)

pub text_eq_refl : (s : List ℕ) → text_eq s s ≡ true
unfolding text_eq
text_eq_refl [] = refl
text_eq_refl (c ∷ s) = ground (arith, text_eq_refl s)

pub text_eq→eq : (s t : List ℕ) → text_eq s t ≡ true → s ≡ t
unfolding text_eq
text_eq→eq [] [] h = refl
text_eq→eq [] (d ∷ t) h = ground arith
text_eq→eq (c ∷ s) [] h = ground arith
text_eq→eq (c ∷ s) (d ∷ t) h = ground (arith, text_eq→eq s t)

pub codes-append : (s t : String) → codes (String.◌++◌ s t) ≡ codes s ++ codes t
codes-append String.[] t = ap codes (nil-append t)
codes-append (String.◌∷◌ c s) t =
    ap codes (cons-append c s t) ∙ ap (λ rest. code c ∷ rest) (codes-append s t)

abbrev pub prepend : ℕ → List (List ℕ) → List (List ℕ)
prepend c [] = (c ∷ []) ∷ []
prepend c (p ∷ ps) = (c ∷ p) ∷ ps

-- `strings.Split` at one rune.
unfoldable pub split : ℕ → List ℕ → List (List ℕ)
split sep [] = [] ∷ []
split sep (c ∷ s) = let rest = split sep s in if beq c sep then [] ∷ rest else prepend c rest
