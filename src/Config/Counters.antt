-- ===== src/Config/Counters.antt =====
-- internal/config/counters.go: counters, their axes and their subjects.
use placitum_counter.Prelude.{
  Bool, List, Option, String, [], beq, codes, false, if◌then◌else◌, is_empty, map_get, none, select,
  some, text_eq, true, ℕ, ◌&&◌, ◌++◌, ◌==◌, ◌||◌, ◌∷◌,
}
use Prim.Native.String
use placitum_counter.Config.Types.{Subjects, Counter, Counters}
pub mod Valid
pub mod Axes
pub mod Tiers

abbrev pub known_axes : List String
known_axes = "ip" ∷ "asn_net" ∷ "asn_router" ∷ "sess" ∷ "user" ∷ "conn" ∷ []

abbrev pub before : ℕ → Option (List ℕ × List ℕ) → Option (List ℕ × List ℕ)
before c none = none
before c (some (l, r)) = some (c ∷ l, r)

-- `strings.Cut` at one rune.
unfoldable pub cut : ℕ → List ℕ → Option (List ℕ × List ℕ)
cut sep [] = none
cut sep (c ∷ s) = elim (beq c sep) [ true ↦ some ([], s) | false ↦ before c (cut sep s) ]

-- `SplitFrom` after the cut: which sources a kind and a name make.
unfoldable pub split_from_parts : Option (List ℕ × List ℕ) → Option (List ℕ × List ℕ)
split_from_parts none = none
split_from_parts (some (kind, name)) =
    if is_empty name
    then none
    else if text_eq kind (codes "cookie") || text_eq kind (codes "header")
    then some (kind, name)
    else if text_eq kind (codes "session")
        && (text_eq name (codes "user") || text_eq name (codes "sid"))
    then some (kind, name)
    else none

unfoldable pub split_from : String → Option (List ℕ × List ℕ)
unfolding cut split_from_parts
split_from from = split_from_parts (cut b':' (codes from))

abbrev header_kind : Option (List ℕ × List ℕ) → Bool
header_kind none = false
header_kind (some (kind, name)) = text_eq kind (codes "cookie") || text_eq kind (codes "header")

-- `WantsHeaders`
unfoldable pub wants_headers : String → Bool
unfolding split_from
wants_headers from = header_kind (split_from from)

-- `Kind`
unfoldable pub kind : String → String → String
kind counter axis = String.◌++◌ counter (String.◌++◌ ":" axis)

abbrev pub declared : Option Subjects → (Subjects → String) → String → String
declared none field shared = shared
declared (some s) field shared = if field s == "" then shared else field s

-- The subjects that a counter declares for itself.
abbrev pub own_subjects : {F : Type 0} → Option (Counter F) → Option Subjects
own_subjects none = none
own_subjects (some c) = c.subjects

abbrev pub has {ℓ} : {V : Type ℓ} → String → List (String × V) → Bool
has k m = elim (map_get k m) [ none ↦ false | some v ↦ true ]

-- The axes that `NoteAxes` wants for an axis of the wire.
unfoldable pub wire_axes : String → List String
wire_axes wire =
    if wire == "ip"
    then "ip" ∷ []
    else if wire == "asn"
    then "asn_net" ∷ "asn_router" ∷ []
    else if wire == "session"
    then "sess" ∷ []
    else []

module _ {F : Type 0} where
  unfoldable pub sess_cookie : Counters F → String → String
  sess_cookie c counter =
      declared (own_subjects (map_get counter c.counters)) (λ s. s.sess_cookie)
        c.subjects.sess_cookie

  unfoldable pub user_from : Counters F → String → String
  user_from c counter =
      declared (own_subjects (map_get counter c.counters)) (λ s. s.user_from) c.subjects.user_from

  unfoldable pub axes_in : Option (Counter F) → List String
  axes_in none = []
  axes_in (some c) = select (λ axis. has axis c.axes) known_axes

  -- `AxesOf`
  unfoldable pub axes_of : Counters F → String → List String
  unfolding axes_in
  axes_of c counter = axes_in (map_get counter c.counters)

  unfoldable pub axis_in : Option (Counter F) → String → Bool
  axis_in none axis = false
  axis_in (some c) axis = has axis c.axes

  -- `HasAxis`
  unfoldable pub has_axis : Counters F → String → String → Bool
  unfolding axis_in
  has_axis c counter axis = axis_in (map_get counter c.counters) axis

  unfoldable pub fill_in : Option (Counter F) → String
  fill_in none = "measure"
  fill_in (some c) = if c.fill == "" then "measure" else c.fill

  -- `Fill`
  unfoldable pub fill : Counters F → String → String
  unfolding fill_in
  fill c counter = fill_in (map_get counter c.counters)

  -- `NoteAxes`
  unfoldable pub note_axes : Counters F → String → String → List String
  unfolding wire_axes has_axis
  note_axes c counter wire = select (has_axis c counter) (wire_axes wire)
