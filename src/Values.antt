-- ===== src/Values.antt =====
-- cmd/inspector/subjects.go: sessionValue and cookieFrom, the values of subjects in the sessions and
-- the headers of a request.
use placitum_counter.Prelude.{
  Bool, List, Option, String, [], beq, codes, false, if◌then◌else◌, length, ltb, none, not, some,
  suc, text_eq, trim_space, true, zero, ℕ, ◌&&◌, ◌++◌, ◌==◌, ◌||◌, ◌∷◌,
}
use Prim.Native.String
use placitum_counter.Protocol.{Session}
use placitum_counter.Config.Counters.{cut}
pub mod Cookies
pub mod Jar
pub mod Chosen

-- The order of Go texts, on their runes.
unfoldable pub text_lt : List ℕ → List ℕ → Bool
text_lt [] [] = false
text_lt [] (d ∷ t) = true
text_lt (c ∷ s) [] = false
text_lt (c ∷ s) (d ∷ t) = ltb c d || beq c d && text_lt s t

-- The value that a session has in a field, and the key that orders sessions.
unfoldable pub field_of : List ℕ → Session → String
field_of field s =
    if text_eq field (codes "user")
    then s.user
    else if text_eq field (codes "sid")
    then s.id
    else ""

unfoldable pub order_key : Session → List ℕ
order_key s = codes s.inspector ++ (0 ∷ codes s.source)

-- The loop of `sessionValue`, from `best` and `bestKey`.
unfoldable pub session_loop : List ℕ → String → List ℕ → List Session → String
unfolding field_of order_key text_lt
session_loop field best best_key [] = best
session_loop field best best_key (s ∷ ss) =
    let kept = session_loop field best best_key ss in
    let taken = session_loop field (field_of field s) (order_key s) ss in
    if not s.verified
    then kept
    else if field_of field s == ""
    then kept
    else if best == "" || text_lt (order_key s) best_key
    then taken
    else kept

-- `sessionValue`
unfoldable pub session_value : List Session → List ℕ → String
unfolding session_loop
session_value sessions field = session_loop field "" [] sessions

-- The pieces of `strings.Trim(s, "\"")`.
unfoldable pub trim_quotes_left : List ℕ → List ℕ
trim_quotes_left [] = []
trim_quotes_left (c ∷ s) = let rest = trim_quotes_left s in if beq c b'"' then rest else c ∷ s

unfoldable pub trim_quotes_right : List ℕ → List ℕ
trim_quotes_right [] = []
trim_quotes_right (c ∷ s) = elim (trim_quotes_right s) [
  | [] ↦ if beq c b'"' then [] else c ∷ []
  | d ∷ t ↦ c ∷ d ∷ t
]

unfoldable pub trim_quotes : List ℕ → List ℕ
unfolding trim_quotes_left trim_quotes_right
trim_quotes s = trim_quotes_right (trim_quotes_left s)

-- What is before and after a separator; without one, all of the text is before it.
abbrev pub whole : List ℕ → Option (List ℕ × List ℕ) → List ℕ × List ℕ
whole src none = (src, [])
whole src (some p) = p

-- `part` and the new `line`, at the first ';'.
unfoldable pub next_part : List ℕ → List ℕ × List ℕ
unfolding cut
next_part line = whole line (cut b';' line)

-- The value of a part that is about the cookie.
abbrev pub pair_value : List ℕ → Option (List ℕ × List ℕ) → Option (List ℕ)
pair_value name none = none
pair_value name (some (key, value)) =
    if text_eq (trim_space key) name then some (trim_quotes (trim_space value)) else none

unfoldable pub part_value : List ℕ → List ℕ → Option (List ℕ)
unfolding cut trim_space text_eq trim_quotes
part_value name part = pair_value name (cut b'=' (trim_space part))

abbrev pub or_next : Option (List ℕ) → Option (List ℕ) → Option (List ℕ)
or_next none next = next
or_next (some v) next = some v

-- `cookieFrom`; `none` means that the fuel ran out.
unfoldable pub cookie_from : ℕ → List ℕ → List ℕ → Option (List ℕ)
unfolding next_part part_value
cookie_from zero line name = none
cookie_from (suc fuel) [] name = some []
cookie_from (suc fuel) (c ∷ s) name =
    let rest = cookie_from fuel (next_part (c ∷ s)).1 name in
    or_next (part_value name (next_part (c ∷ s)).0) rest

-- The text that is returned.
abbrev pub or_empty : Option (List ℕ) → List ℕ
or_empty none = []
or_empty (some v) = v

-- `cookieFrom` with as much fuel as a line needs.
unfoldable pub cookie_in : List ℕ → List ℕ → List ℕ
unfolding cookie_from
cookie_in line name = or_empty (cookie_from (suc (length line)) line name)
