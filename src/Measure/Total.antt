-- ===== src/Measure/Total.antt =====
-- internal/measure/measure.go: `Run` on the rules of an accepted profile.
use placitum_counter.Prelude.{
  All, All-imp, Bool, Bool-cases, List, Option, String, [], any, ap, eq_iff, eq_refl, false,
  if◌then◌else◌, inl, inr, is_empty, map, or-true, pos, refl, some, true, ℕ, ◌&&◌, ◌==◌, ◌||◌, ◌∙◌,
  ◌∷◌, ◌≡◌,
}
use placitum_counter.Prelude.Float.{Float64}
use placitum_counter.Config.Types.{MeasureRule, Counters}
use placitum_counter.Config.Validate.Sound.{IsCompiled}
use placitum_counter.Measure.{Input, Value, Fired, selects, extract, axes_for, emit, run}
use placitum_counter.Config.Validate.Rules.{weight}

-- A value is there: the code does not panic.
abbrev IsSome {ℓ} : {A : Type ℓ} → Option A → Type ℓ
IsSome {A = A} o = (a : A) × (o ≡ some a)

if-IsSome {ℓ} :
    {A : Type ℓ} (b : Bool) (x y : Option A) → IsSome x → IsSome y → IsSome (if b then x else y)
if-IsSome true x y hx hy = hx
if-IsSome false x y hx hy = hy

module _ {F : Type 0} where
  -- Each value is the counter, the axes and the amount of its row.
  abbrev pub value_of : Fired F → Value F
  value_of f = record { counter = f.counter; axes = f.axes; amount = f.value }

  -- A row comes from one of the rules that select the input, with its counter and its source.
  abbrev pub From : Input → List (MeasureRule F) → Fired F → Type 0
  From input rules f =
      any (λ r. selects r.selector input && (r.counter == f.counter && r.source == f.source)) rules
      ≡ true

  From-cons :
      (input : Input) (r : MeasureRule F) (rs : List (MeasureRule F)) (fs : List (Fired F))
      → All (From input rs) fs
      → All (From input (r ∷ rs)) fs
  unfolding any
  From-cons input r rs fs h =
      All-imp _ _
        (λ f k.
          ap
            (λ b.
              (selects r.selector input && (r.counter == f.counter && r.source == f.source)) || b)
            k
          ∙ or-true _)
        fs h

module _ (find_all : String → List ℕ → ℕ) {F : Type 0} ⦃fl : Float64 F⦄ where
  extract_total :
      (r : MeasureRule F) (input : Input) → IsCompiled r → IsSome (extract find_all r input)
  unfolding extract
  extract_total r input h =
      if-IsSome (r.source == "const") _ _ (_, refl)
        (if-IsSome (r.source == "size_kb") _ _ (_, refl)
          (if-IsSome (r.source == "bytes") _ _ (_, refl)
            (elim (Bool-cases (r.source == "regex_count")) [
              | inl counts ↦
                  rw (h ((eq_iff r.source "regex_count").0 counts), counts)
                    (if-IsSome (is_empty input.body) _ _ (_, refl) (_, refl))
              | inr other ↦ rw other (_, refl)
            ])))

  -- What `Run` gives back: rows of selecting rules, and the values that stand in them.
  abbrev pub IsMeasured : Input → List (MeasureRule F) → List (Value F) × List (Fired F) → Type 0
  IsMeasured input rules out = (out.0 ≡ map value_of out.1) × All (From input rules) out.1

  emitted :
      (r : MeasureRule F) (rs : List (MeasureRule F)) (input : Input)
      (out : List (Value F) × List (Fired F)) (f : Fired F)
      → selects r.selector input ≡ true
      → (r.counter == f.counter && r.source == f.source) ≡ true
      → IsMeasured input rs out
      → IsMeasured input (r ∷ rs) (value_of f ∷ out.0, f ∷ out.1)
  unfolding any
  emitted r rs input out f on same h =
      let here : From input (r ∷ rs) f = rw (on, same) refl in
      (ap (◌∷◌ (value_of f)) h.0, (here, From-cons input r rs out.1 h.1))

  -- The row that `emit` appends.
  abbrev row : MeasureRule F → Counters F → F × Bool → Fired F
  row r counters e = record {
    counter = r.counter;
    source = r.source;
    value = fl.mul e.0 (weight r);
    axes = axes_for find_all r counters;
    truncated = e.1;
  }

  emit-IsMeasured :
      (r : MeasureRule F) (rs : List (MeasureRule F)) (counters : Counters F) (input : Input)
      (e : F × Bool) (out : List (Value F) × List (Fired F))
      → selects r.selector input ≡ true
      → IsMeasured input rs out
      → IsMeasured input (r ∷ rs) (emit find_all r counters e out)
  unfolding emit any
  emit-IsMeasured r rs counters input e out on h =
      elim (Bool-cases (fl.eq e.0 (fl.of_int (pos 0)))) [
        | inl zero_amount ↦ rw zero_amount (h.0, From-cons input r rs out.1 h.1)
        | inr added ↦ rw added (
            emitted r rs input out (row r counters e) on
              (rw (eq_refl r.counter, eq_refl r.source) refl) h)
      ]

  -- On rules whose counting ones are compiled, as those of an accepted profile are, `Run` does not
  -- panic; its values are the counters, axes and amounts of its rows in their order, and every row
  -- has the counter and the source of a rule that selects the input.
  pub run_total :
      (rules : List (MeasureRule F)) (counters : Counters F) (input : Input)
      → All IsCompiled rules
      → (out : List (Value F) × List (Fired F)) × (run find_all rules counters input ≡ some out)
        × IsMeasured input rules out
  unfolding run
  run_total [] counters input h = (([], []), refl, (refl, tt))
  run_total (r ∷ rs) counters input h =
      let (e, a) = extract_total r input h.0 in
      let (out, b, m) = run_total rs counters input h.1 in
      elim (Bool-cases (selects r.selector input)) [
        | inl on ↦ (
          emit find_all r counters e out,
          rw (on, a, b) refl,
          emit-IsMeasured r rs counters input e out on m,
        )
        | inr off ↦ (out, rw (off, b) refl, (m.0, From-cons input r rs out.1 m.1))
      ]
