-- ===== src/Decide/Fire/Selected.antt =====
-- internal/decide/decide.go: what `Fire` and `FireOverload` send, outcome by outcome.
use placitum_counter.Prelude.{
  Bool, Bool-cases, List, Option, String, [], ap, append-nil, append_assoc, false, if◌then◌else◌,
  inl, inr, map, map-select-cons, none, not, refl, select, some, sym, true, ℤ, ◌&&◌, ◌++◌, ◌==◌,
  ◌||◌, ◌∙◌, ◌∷◌, ◌≡◌,
}
use placitum_counter.Prelude.Float.{Float64}
use placitum_counter.Config.Types.{Outcome, OutcomeIf}
use placitum_counter.Config.Outcome.{asks, on_bucket, matches}
use placitum_counter.Decide.{Decision, LevelLookup}
use placitum_counter.Decide.Fire.{
  LevelAudit, Fired, nothing, ask, ban, outcome_name, deliver, fires_overload, fire_overload_loop,
  fire_overload, found_at, level_row, level, fire_outcome, fire_loop, fire,
}

module _ {F : Type 0} where
  join : Fired F → Fired F → Fired F
  join a b = record {
    actions = a.actions ++ b.actions;
    bans = a.bans ++ b.bans;
    names = a.names ++ b.names;
    levels = a.levels ++ b.levels;
  }

  join_assoc : (a b c : Fired F) → join (join a b) c ≡ join a (join b c)
  unfolding join
  join_assoc a b c = λ i. record {
    actions = append_assoc a.actions b.actions c.actions i;
    bans = append_assoc a.bans b.bans c.bans i;
    names = append_assoc a.names b.names c.names i;
    levels = append_assoc a.levels b.levels c.levels i;
  }

  join-nothing : (a : Fired F) → join a nothing ≡ a
  unfolding join
  join-nothing a = λ i. record {
    actions = append-nil a.actions i;
    bans = append-nil a.bans i;
    names = append-nil a.names i;
    levels = append-nil a.levels i;
  }

-- A list write needs an address; an ask does not.
unfoldable pub writes : String → Outcome → Bool
writes addr o = not (asks o) && not (addr == "")

module _ {F : Type 0} where
  -- What is sent for the outcomes that pass the test `p`, each list in the outcomes' order.
  unfoldable pub sent :
      (Outcome → Bool) → String → String → List (LevelAudit F) → List Outcome → Fired F
  sent p addr code levels os = record {
    actions = map (λ o. ask o code) (select (λ o. p o && asks o) os);
    bans = map (λ o. ban o addr code) (select (λ o. p o && writes addr o) os);
    names = map outcome_name (select (λ o. p o && (asks o || writes addr o)) os);
    levels = levels;
  }

  sent_one : Bool → String → String → List (LevelAudit F) → Outcome → Fired F
  sent_one b addr code levels o = record {
    actions = if b && asks o then ask o code ∷ [] else [];
    bans = if b && writes addr o then ban o addr code ∷ [] else [];
    names = if b && (asks o || writes addr o) then outcome_name o ∷ [] else [];
    levels = levels;
  }

  sent-cons :
      (p : Outcome → Bool) (addr code : String) (l ls : List (LevelAudit F)) (o : Outcome)
      (os : List Outcome)
      → join (sent_one (p o) addr code l o) (sent p addr code ls os)
        ≡ sent p addr code (l ++ ls) (o ∷ os)
  unfolding join sent sent_one
  sent-cons p addr code l ls o os = sym (λ i. record {
    actions = map-select-cons (λ o. ask o code) (λ o. p o && asks o) o os i;
    bans = map-select-cons (λ o. ban o addr code) (λ o. p o && writes addr o) o os i;
    names = map-select-cons outcome_name (λ o. p o && (asks o || writes addr o)) o os i;
    levels = l ++ ls;
  })

  deliver-sent :
      (addr code : String) (out : Fired F) (l : List (LevelAudit F)) (o : Outcome)
      → deliver addr code (record out { levels = out.levels ++ l }) o
        ≡ join out (sent_one true addr code l o)
  unfolding deliver join sent_one writes
  deliver-sent addr code out l o = elim (Bool-cases (asks o)) [
    | inl a ↦ simp (a, append-nil)
    | inr a ↦ elim (Bool-cases (addr == "")) [
      | inl e ↦ simp (a, e, append-nil)
      | inr e ↦ simp (a, e, append-nil)
    ]
  ]

  -- An outcome that is passed over leaves its row alone.
  skip-sent :
      (addr code : String) (out : Fired F) (l : List (LevelAudit F)) (o : Outcome)
      → record out { levels = out.levels ++ l } ≡ join out (sent_one false addr code l o)
  unfolding join sent_one
  skip-sent addr code out l o = simp append-nil

  when-sent :
      (b : Bool) (addr code : String) (out : Fired F) (l : List (LevelAudit F)) (o : Outcome)
      → let out' = record out { levels = out.levels ++ l } in
        (if b then deliver addr code out' o else out') ≡ join out (sent_one b addr code l o)
  when-sent true addr code out l o = deliver-sent addr code out l o
  when-sent false addr code out l o = skip-sent addr code out l o

  if-sent :
      (b : Bool) (addr code : String) (out : Fired F) (o : Outcome)
      → (if b then deliver addr code out o else out) ≡ join out (sent_one b addr code [] o)
  if-sent b addr code out o =
      ap (λ (r : Fired F). if b then deliver addr code r o else r) (no_levels out)
      ∙ when-sent b addr code out [] o
    where
      no_levels : (out : Fired F) → out ≡ record out { levels = out.levels ++ [] }
      no_levels out = λ i. record out { levels = sym (append-nil out.levels) i }

  fire_overload_loop_lem :
      (fill : ℤ) (shed : Bool) (addr code : String) (out : Fired F) (os : List Outcome)
      → fire_overload_loop fill shed addr code out os
        ≡ join out (sent (fires_overload fill shed) addr code [] os)
  unfolding fire_overload_loop
  fire_overload_loop_lem fill shed addr code out [] = sym (unfold sent select in join-nothing out)
  fire_overload_loop_lem fill shed addr code out (o ∷ os) =
      fire_overload_loop_lem fill shed addr code
        (if fires_overload fill shed o then deliver addr code out o else out) os
      ∙ ap (λ (r : Fired F). join r (sent (fires_overload fill shed) addr code [] os))
          (if-sent (fires_overload fill shed o) addr code out o)
      ∙ join_assoc out _ _
      ∙ ap (join out) (sent-cons (fires_overload fill shed) addr code [] [] o os)

  nothing-join : (a : Fired F) → join nothing a ≡ a
  unfolding join
  nothing-join a = refl

  -- On overload every outcome that fires by the fill or by the shedding is sent, in order: an ask as
  -- an action, a list as a write of the address, which needs an address. No level is read.
  pub fire_overload-eq-sent :
      (outcomes : List Outcome) (fill : ℤ) (shed : Bool) (addr code : String)
      → fire_overload outcomes fill shed addr code
        ≡ sent (fires_overload fill shed) addr code [] outcomes
  unfolding fire_overload
  fire_overload-eq-sent os fill shed addr code =
      fire_overload_loop_lem fill shed addr code nothing os ∙ nothing-join _

-- The verdict, the score and the code that the outcomes follow: those that were kept aside on an
-- observed profile, else those of the decision.
abbrev pub followed : Decision → String × ℤ × String
followed d =
    if d.would_verdict == ""
    then (d.verdict, d.score, d.code)
    else (d.would_verdict, d.would_score, d.would_code)

module _ {F : Type 0} ⦃fl : Float64 F⦄ where
  abbrev pub row_at : Option (LevelLookup F) → Outcome → Option OutcomeIf → List (LevelAudit F)
  row_at lookup o none = []
  row_at lookup o (some b) = if on_bucket o then level_row o b (found_at lookup b) ∷ [] else []

  abbrev pub selected_at : String → ℤ → Option (LevelLookup F) → Outcome → Option OutcomeIf → Bool
  selected_at verdict score lookup o none = matches o verdict score
  selected_at verdict score lookup o (some b) =
      if on_bucket o then (level_row o b (found_at lookup b)).fired else matches o verdict score

  -- An outcome on a bucket fires by the bucket's level, any other by the verdict.
  abbrev pub selected : String → ℤ → Option (LevelLookup F) → Outcome → Bool
  selected verdict score lookup o = selected_at verdict score lookup o o.bucket

  -- One row for each outcome on a bucket, in order.
  pub level_rows : Option (LevelLookup F) → List Outcome → List (LevelAudit F)
  level_rows lookup [] = []
  level_rows lookup (o ∷ os) = row_at lookup o o.bucket ++ level_rows lookup os

  fire_outcome-sent :
      (verdict : String) (score : ℤ) (code addr : String) (lookup : Option (LevelLookup F))
      (out : Fired F) (o : Outcome) (b : Option OutcomeIf)
      → fire_outcome verdict score code addr lookup out o b
        ≡ join out (sent_one (selected_at verdict score lookup o b) addr code (row_at lookup o b) o)
  unfolding fire_outcome level
  fire_outcome-sent verdict score code addr lookup out o none =
      if-sent (matches o verdict score) addr code out o
  fire_outcome-sent verdict score code addr lookup out o (some b) =
      elim (Bool-cases (on_bucket o)) [
        | inl e ↦ rw e (
            when-sent (level_row o b (found_at lookup b)).fired addr code out
              (level_row o b (found_at lookup b) ∷ []) o)
        | inr e ↦ rw e (if-sent (matches o verdict score) addr code out o)
      ]

  fire_loop_lem :
      (verdict : String) (score : ℤ) (code addr : String) (lookup : Option (LevelLookup F))
      (out : Fired F) (os : List Outcome)
      → fire_loop verdict score code addr lookup out os
        ≡ join out (sent (selected verdict score lookup) addr code (level_rows lookup os) os)
  unfolding fire_loop level_rows
  fire_loop_lem verdict score code addr lookup out [] = sym (unfold sent select in join-nothing out)
  fire_loop_lem verdict score code addr lookup out (o ∷ os) =
      fire_loop_lem verdict score code addr lookup
        (fire_outcome verdict score code addr lookup out o o.bucket) os
      ∙ ap
          (λ (r : Fired F).
            join r (sent (selected verdict score lookup) addr code (level_rows lookup os) os))
          (fire_outcome-sent verdict score code addr lookup out o o.bucket)
      ∙ join_assoc out _ _
      ∙ ap (join out) (
          sent-cons (selected verdict score lookup) addr code (row_at lookup o o.bucket)
            (level_rows lookup os) o os)

  -- Every outcome that its bucket's level or the verdict selects is sent, in order: an ask as an
  -- action, a list as a write of the address, which needs an address. The levels have one row for
  -- each outcome on a bucket, selected or not.
  pub fire-eq-sent :
      (outcomes : List Outcome) (d : Decision) (addr : String) (lookup : Option (LevelLookup F))
      → fire outcomes d addr lookup
        ≡ sent
            (selected (followed d).0 (followed d).1 lookup)
            addr
            (followed d).2
            (level_rows lookup outcomes)
            outcomes
  unfolding fire
  fire-eq-sent os d addr lookup = elim (Bool-cases (d.would_verdict == "")) [
    | inl e ↦ rw e (fire_loop_lem _ _ _ addr lookup nothing os ∙ nothing-join _)
    | inr e ↦ rw e (fire_loop_lem _ _ _ addr lookup nothing os ∙ nothing-join _)
  ]
