-- ===== src/Protocol/Checks.antt =====
-- The checks of an action's arguments: `CheckArchiveWhen`, `CheckObjectSpec` and `CheckMarker`.

-- The words that `CheckArchiveWhen` has seen: allow and deny.
use placitum_counter.Protocol.{ObjectSpec}
use placitum_counter.Prelude.{
  Bool, List, Option, Result, String, [], any, beq, byte_len, codes, err, fail_if, false,
  if◌then◌else◌, ltb, ltb_ℤ, none, not, ok, pos, some, text_eq, to_lower, trim_space, ℕ, ◌&&◌, ◌++◌,
  ◌==◌, ◌>>=◌, ◌>>◌, ◌||◌, ◌∷◌,
}

check_when : List String → Bool → Bool → Result (Bool × Bool)
check_when [] allow deny = ok (allow, deny)
check_when (word ∷ words) allow deny =
    let name = to_lower (trim_space (codes word)) in
    let is_allow = text_eq name (codes "allow") in
    let is_deny = text_eq name (codes "deny") in
    let rest = check_when words (allow || is_allow) (deny || is_deny) in
    if not is_allow && not is_deny
    then err "when accepts only allow and deny, got %q"
    else if (is_allow && allow) || (is_deny && deny)
    then err "when lists %q twice"
    else rest

-- In the order of `ArchiveWhen`.
abbrev when_words : Bool × Bool → List String
when_words (allow, deny) =
    (if allow then "allow" ∷ [] else []) ++ (if deny then "deny" ∷ [] else [])

unfoldable pub check_archive_when : List String → Result (List String)
unfolding check_when
check_archive_when words = do seen ← check_when words false false; ok (when_words seen)

-- `CheckObjectSpec`; its argument `audit` is not used by the code.
unfoldable pub check_object_spec : Option ObjectSpec → Result (Unit {0})
check_object_spec none = ok tt
check_object_spec (some o) = do
  fail_if (not (o.set == "" || o.set == "on" || o.set == "off")) "%s.set must be on or off, got %q"
  fail_if (ltb_ℤ o.limit (pos 0)) "%s.limit must not be negative"
  fail_if (not (o.source == "" || o.source == "store" || o.source == "original"))
      "%s.source must be store or original, got %q"

abbrev pub marker_max : ℕ
marker_max = 128

pub is_control : ℕ → Bool
is_control c = ltb c 0x20 || beq c 0x7f

abbrev pub first_is : ℕ → List ℕ → Bool
first_is k [] = false
first_is k (c ∷ s) = beq c k

unfoldable pub last_is : ℕ → List ℕ → Bool
last_is k [] = false
last_is k (c ∷ []) = beq c k
last_is k (c ∷ d ∷ s) = last_is k (d ∷ s)

-- `CheckMarker`, on the runes of the marker. A byte of a longer rune is at least 0x80, so it is
-- neither a control character nor a space.
unfoldable pub check_marker : String → Result (Unit {0})
unfolding is_control last_is
check_marker marker = do
  fail_if (marker == "") "mark needs a marker"
  fail_if (ltb marker_max (byte_len (codes marker))) "marker is longer than %d bytes"
  fail_if (any is_control (codes marker)) "marker has a control character"
  fail_if (first_is 0x20 (codes marker) || last_is 0x20 (codes marker))
      "marker has a leading or trailing space"
