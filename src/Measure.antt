-- ===== src/Measure.antt =====
-- internal/measure/measure.go and the selectors of internal/config/profile.go: what the measure rules
-- add for a message. `find_all` stands for `regexp`: how many matches the compiled expression of a
-- text has in a body. A nil expression panics: `none`.
use placitum_counter.Prelude.{
  Bool, List, Option, String, [], any, beq, beq_ℤ, codes, drop, equal_fold, false, if◌then◌else◌,
  is_empty, leb, leb_ℤ, length, none, not, pos, some, text_eq, to_lower, trim_space, ℕ, ℤ, ◌&&◌,
  ◌-◌, ◌==◌, ◌||◌, ◌∷◌,
}
use placitum_counter.Prelude.Float.{Float64}
use placitum_counter.Config.Types.{Match, MeasureRule, Counters}
use placitum_counter.Config.Counters.{axes_of}
use placitum_counter.Config.Validate.Rules.{weight}
pub mod Total

pub record Input : Type 0 where
  pub method : String
  pub status : ℤ
  pub frame : Bool
  pub direction : String
  pub opcode : String
  pub content_type : String
  pub body : List ℕ
  pub body_truncated : Bool
  pub body_size : ℤ

pub record Value (F : Type 0) : Type 0 where
  pub counter : String
  pub axes : List String
  pub amount : F

pub record Fired (F : Type 0) : Type 0 where
  pub counter : String
  pub source : String
  pub value : F
  pub axes : List String
  pub truncated : Bool

-- `hasFold`
unfoldable pub has_fold : List String → String → Bool
has_fold vs want = any (λ v. equal_fold (codes v) (codes want)) vs

-- `hasInt`
unfoldable pub has_int : List ℤ → ℤ → Bool
has_int vs want = any (λ v. beq_ℤ v want) vs

-- `MatchesFrame`
unfoldable pub matches_frame : Match → String → String → Bool
unfolding has_fold
matches_frame m direction opcode =
    if not (is_empty m.direction) && not (has_fold m.direction direction)
    then false
    else is_empty m.opcode || has_fold m.opcode opcode

-- `ct[:i]` at the first ';', the whole text where there is none.
unfoldable pub before_semicolon : List ℕ → List ℕ
before_semicolon [] = []
before_semicolon (c ∷ s) = let rest = before_semicolon s in if beq c b';' then [] else c ∷ rest

-- The content type without its parameters.
unfoldable pub media_type : String → List ℕ
unfolding before_semicolon
media_type content_type =
    let ct = to_lower (trim_space (codes content_type)) in
    if any (λ c. beq c b';') ct then trim_space (before_semicolon ct) else ct

-- `strings.HasSuffix`
unfoldable pub has_suffix : List ℕ → List ℕ → Bool
has_suffix s suffix =
    leb (length suffix) (length s) && text_eq (drop (length s - length suffix) s) suffix

abbrev starts_plus : List ℕ → Bool
starts_plus [] = false
starts_plus (c ∷ s) = beq c b'+'

-- One round of the loop of `typeAllowed`.
unfoldable pub type_fits : List ℕ → String → Bool
unfolding has_suffix
type_fits ct want =
    let w = to_lower (trim_space (codes want)) in
    if starts_plus w then has_suffix ct w else text_eq ct w

-- `typeAllowed`
unfoldable pub type_allowed : List String → String → Bool
unfolding media_type type_fits
type_allowed want content_type = is_empty want || any (type_fits (media_type content_type)) want

-- `Match.Matches`
unfoldable pub matches : Match → String → ℤ → String → Bool
unfolding has_int has_fold type_allowed
matches m method status content_type =
    if not (is_empty m.status) && not (has_int m.status status)
    then false
    else if not (is_empty m.methods) && not (has_fold m.methods method)
    then false
    else type_allowed m.content_type content_type

-- The guards of the loop of `Run`.
unfoldable pub selects : Match → Input → Bool
unfolding matches_frame matches
selects m input =
    if input.frame
    then matches_frame m input.direction input.opcode
    else matches m input.method input.status input.content_type

module _ (find_all : String → List ℕ → ℕ) {F : Type 0} ⦃fl : Float64 F⦄ where
  abbrev counted : Option String → Input → Option (F × Bool)
  counted none input = none
  counted (some re) input = some (fl.of_int (pos (find_all re input.body)), input.body_truncated)

  unfoldable pub extract : MeasureRule F → Input → Option (F × Bool)
  extract r input =
      if r.source == "const"
      then some (fl.of_int (pos 1), false)
      else if r.source == "size_kb"
      then some (
        if leb_ℤ input.body_size (pos 0)
            then fl.of_int (pos 0)
            else fl.div (fl.of_int input.body_size) (fl.of_int (pos 1024)),
        false,
      )
      else if r.source == "bytes"
      then some (
        if leb_ℤ input.body_size (pos 0) then fl.of_int (pos 0) else fl.of_int input.body_size,
        false,
      )
      else if r.source == "regex_count"
      then (if is_empty input.body then some (fl.of_int (pos 0), false) else counted r.re input)
      else some (fl.of_int (pos 0), false)

  -- The axes that a rule adds to.
  unfoldable pub axes_for : MeasureRule F → Counters F → List String
  axes_for r counters = if is_empty r.axes then axes_of counters r.counter else r.axes

  -- What a rule that was measured appends to `values` and `fired`.
  unfoldable pub emit :
      MeasureRule F
      → Counters F
      → F × Bool
      → List (Value F) × List (Fired F)
      → List (Value F) × List (Fired F)
  unfolding axes_for
  emit r counters (amount, truncated) (values, fired) =
      if fl.eq amount (fl.of_int (pos 0)) then (values, fired) else (
        record {
          counter = r.counter;
          axes = axes_for r counters;
          amount = fl.mul amount (weight r);
        }
            ∷ values,
        record {
          counter = r.counter;
          source = r.source;
          value = fl.mul amount (weight r);
          axes = axes_for r counters;
          truncated = truncated;
        }
            ∷ fired,
      )

  abbrev emit_all :
      MeasureRule F
      → Counters F
      → Option (F × Bool)
      → Option (List (Value F) × List (Fired F))
      → Option (List (Value F) × List (Fired F))
  emit_all r counters none rest = none
  emit_all r counters (some e) none = none
  emit_all r counters (some e) (some rest) = some (emit r counters e rest)

  -- `Run`
  unfoldable pub run :
      List (MeasureRule F) → Counters F → Input → Option (List (Value F) × List (Fired F))
  unfolding selects extract emit
  run [] counters input = some ([], [])
  run (r ∷ rs) counters input =
      let rest = run rs counters input in
      if selects r.selector input then emit_all r counters (extract r input) rest else rest
