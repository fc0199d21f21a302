-- ===== src/Handler/Lookups.antt =====
-- cmd/inspector/handler.go: the levels that the judge rules and the outcomes look up.
use mathlib.Core.Bool.{true≢false}
use mathlib.Core.List.{Memᴰ}
use placitum_counter.Prelude.{
  All, All-imp, Bool-cases, List, Option, String, [], ap, arith, false, if◌then◌else◌, inl, inr,
  is_empty, length, map, none, ok, ok_injective, or-eq-false, or-false, or-true, pos, refl, some,
  sym, true, ℕ, ◌++◌, ◌||◌, ◌∙◌, ◌∷◌, ◌≡◌,
}
use placitum_counter.Prelude.Float.{Float64}
use placitum_counter.Protocol.{Request}
use placitum_counter.Config.Types.{Profile, Counters}
use placitum_counter.Config.Counters.{kind}
use placitum_counter.Config.Snapshot.{Snapshot}
use placitum_counter.Buckets.{
  Ref, Charge, Level, Tiers, same_ref, has_ref, admits, ref_union, live, apply, apply_local,
}
use placitum_counter.Buckets.Union.{ref_union-members, same_ref→eq, same_ref_refl, has_ref-append}
use placitum_counter.Buckets.Ledger.{apply-bounds}
use placitum_counter.Buckets.Agree.{apply_remote-bounds}
use placitum_counter.Buckets.Store.{BucketStore, in_process, in_redis, apply_store}
use placitum_counter.Decide.Prior.{Ask}
use placitum_counter.Subjects.{Header, SubjectRef, SubjectKeys, key}
use placitum_counter.Subjects.Keyed.{direct_key, key-subjects_of}
use placitum_counter.Handler.Env.{
  Env, resolve_by, rule_ref, outcome_refs, note_ref, read_of, reads_of, percent_at, looked_up,
  lookup_in,
}
use placitum_counter.Handler.Judge.{judge_keys, judge_apply}
use placitum_counter.Handler.Inputs.{request_refs}

abbrev refs_in : {F : Type 0} → List (Level F) → List Ref
refs_in levels = map (λ l. l.ref) levels

later_read : (r : Ref) (xs ys : List Ref) → has_ref ys r ≡ true → has_ref (xs ++ ys) r ≡ true
later_read r xs ys h =
    has_ref-append r xs ys ∙ ap (λ b. has_ref xs r || b) h ∙ or-true (has_ref xs r)

All-left {ℓ κ} : {A : Type ℓ} (P : A → Type κ) (xs ys : List A) → All P (xs ++ ys) → All P xs
All-left P [] ys h = tt
All-left P (x ∷ xs) ys h = (h.0, All-left P xs ys h.1)

All-both :
    (P Q R : SubjectRef → Type 0)
    → ((r : SubjectRef) → P r → Q r → R r)
    → (rs : List SubjectRef) → All P rs
    → All Q rs
    → All R rs
All-both P Q R f [] p q = tt
All-both P Q R f (r ∷ rs) p q = (f r p.0 q.0, All-both P Q R f rs p.1 q.1)

module _ {F : Type 0} ⦃fl : Float64 F⦄ where
  percent_at-none :
      (r : Ref) (percent : F) (ls : List (Level F))
      → has_ref (refs_in ls) r ≡ false
      → percent_at r percent ls ≡ percent
  unfolding percent_at has_ref
  percent_at-none r percent [] h = refl
  percent_at-none r percent (l ∷ ls) h =
      let parts = or-eq-false (same_ref l.ref r) (has_ref (refs_in ls) r) h in
      ap (λ b. percent_at r (if b then l.percent else percent) ls) parts.0
      ∙ percent_at-none r percent ls parts.1

  -- A level of a reference, whose percent is the entry.
  abbrev FoundAt : Ref → F → List (Level F) → Type 0
  FoundAt r percent ls =
      (l : Level F) × Memᴰ l ls × (same_ref l.ref r ≡ true) × (percent_at r percent ls ≡ l.percent)

  percent_at-found :
      (r : Ref) (percent : F) (ls : List (Level F))
      → has_ref (refs_in ls) r ≡ true
      → FoundAt r percent ls
  unfolding percent_at has_ref
  percent_at-found r percent [] h = absurd (true≢false (sym h))
  percent_at-found r percent (l ∷ ls) h = elim (Bool-cases (has_ref (refs_in ls) r)) [
    | inl later ↦
        let f = percent_at-found r (if same_ref l.ref r then l.percent else percent) ls later in
        (f.0, Memᴰ.tail f.1, f.2, f.3)
    | inr last ↦
        let here : same_ref l.ref r ≡ true =
          sym (or-false (same_ref l.ref r)) ∙ ap (λ b. same_ref l.ref r || b) (sym last) ∙ h in
        (
          l,
          Memᴰ.head refl,
          here,
          ap (λ b. percent_at r (if b then l.percent else percent) ls) here
              ∙ percent_at-none r l.percent ls last,
        )
  ]

  apply-levels :
      (max : ℕ) (tiers : Tiers F) (charges : List (Charge F)) (reads : List Ref) (t : F)
      (m : List (String × F))
      → (apply max tiers charges reads t m).0 ≡ (apply (length m) tiers charges reads t m).0
  unfolding apply apply_local
  apply-levels max tiers charges reads t m =
      elim (Bool-cases (is_empty (ref_union tiers (live tiers charges) reads))) [
        | inl none_live ↦ rw none_live refl
        | inr some_live ↦ rw some_live refl
      ]

  -- `Apply` gives a level for each reference of `refUnion`, in the process as in Redis.
  apply_store-refs :
      (bkt bkt' : BucketStore F) (tiers : Tiers F) (charges : List (Charge F)) (reads : List Ref)
      (t : F) (levels : List (Level F))
      → apply_store bkt tiers charges reads t ≡ (ok levels, bkt')
      → refs_in levels ≡ ref_union tiers (live tiers charges) reads
  unfolding apply_store
  apply_store-refs (in_process max m) bkt' tiers charges reads t levels h =
      let same : (apply max tiers charges reads t m).0 ≡ levels =
        ok_injective _ _ (ap (λ o. o.0) h) in
      ap refs_in (sym same ∙ apply-levels max tiers charges reads t m)
      ∙ (apply-bounds (length m) tiers charges reads t m (omega arith)).1
  apply_store-refs (in_redis exec) bkt' tiers charges reads t levels h =
      (apply_remote-bounds exec tiers charges reads t levels (ap (λ o. o.0) h)).1

  -- What is read holds a reference for each subject that has a key.
  IsRead : Counters F → SubjectKeys → List Ref → SubjectRef → Type 0
  IsRead counters keys reads r =
      (k : String)
      → key counters keys r.counter r.axis ≡ some k
      → has_ref reads (record { kind = kind r.counter r.axis; key = k }) ≡ true

  reads_of-IsRead :
      (counters : Counters F) (keys : SubjectKeys) (refs : List SubjectRef)
      → All (IsRead counters keys (reads_of counters keys refs)) refs
  unfolding IsRead reads_of has_ref
  reads_of-IsRead counters keys [] = tt
  reads_of-IsRead counters keys (r ∷ rs) =
      let rest = reads_of counters keys rs in
      let here = key counters keys r.counter r.axis in
      (
        λ k e.
            let ref : Ref = record { kind = kind r.counter r.axis; key = k } in
            ap (λ o. has_ref (read_of r.counter r.axis o ++ rest) ref) e
            ∙ ap (λ b. b || has_ref rest ref) (same_ref_refl ref),
        All-imp (IsRead counters keys rest) _
            (λ s h k e.
              later_read (record { kind = kind s.counter s.axis; key = k })
                (read_of r.counter r.axis here) rest (h k e))
            rs (reads_of-IsRead counters keys rs),
      )

  -- The lookup of a subject: the percent of the level of its bucket that `Apply` gave, with its key, or nothing
  -- without a key.
  abbrev pub IsLookedUp :
      Counters F
      → Tiers F
      → List (Level F)
      → SubjectRef
      → Option String
      → Option (F × String)
      → Type 0
  IsLookedUp counters tiers levels r none found = found ≡ none
  IsLookedUp counters tiers levels r (some k) found =
      let ref : Ref = record { kind = kind r.counter r.axis; key = k } in
      admits tiers ref ≡ true
      → (l : Level F) × Memᴰ l levels × (l.ref ≡ ref) × (found ≡ some (l.percent, k))

  lookup_in-IsLookedUp :
      (counters : Counters F) (keys : SubjectKeys) (bkt bkt' : BucketStore F) (tiers : Tiers F)
      (charges : List (Charge F)) (reads : List Ref) (t : F) (levels : List (Level F))
      → apply_store bkt tiers charges reads t ≡ (ok levels, bkt')
      → (r : SubjectRef) (o : Option String) → IsRead counters keys reads r
      → key counters keys r.counter r.axis ≡ o
      → IsLookedUp counters tiers levels r o (lookup_in counters keys levels r.counter r.axis)
  unfolding lookup_in IsRead
  lookup_in-IsLookedUp counters keys bkt bkt' tiers charges reads t levels applied r none read e =
      ap (looked_up levels r.counter r.axis) e
  lookup_in-IsLookedUp counters keys bkt bkt' tiers charges reads t levels applied r (some k) read
        e =
      λ on.
        let ref : Ref = record { kind = kind r.counter r.axis; key = k } in
        let member : has_ref (refs_in levels) ref ≡ true =
          ap (λ rs. has_ref rs ref) (apply_store-refs bkt bkt' tiers charges reads t levels applied)
          ∙ (ref_union-members tiers (live tiers charges) reads).0 ref
          ∙ rw (on, read k e) (or-true _) in
        let f = percent_at-found ref (fl.of_int (pos 0)) levels member in
        (
          f.0,
          f.1,
          same_ref→eq f.0.ref ref f.2,
          ap (looked_up levels r.counter r.axis) e ∙ ap (λ q. some (q, k)) f.3,
        )

  -- When `Apply` succeeds in `judge`, each judge rule and each outcome on a bucket looks up the level
  -- that `Apply` gave for the bucket of its own subject, if the bucket's tier is enabled, and nothing if the request has no
  -- such subject. A subject is the key that the reference has alone.
  pub judge-IsLookedUp :
      (env : Env F) (req : Request) (p : Profile F) (snap : Snapshot F) (ask : Ask)
      (bkt bkt' : BucketStore F) (t : F) (headers : List Header) (levels : List (Level F))
      → judge_apply env req p snap ask bkt t headers ≡ (ok levels, bkt')
      → All
          (λ r.
            IsLookedUp snap.counters snap.tiers levels r
              (direct_key env.sha256 env.hex headers req.sessions snap.counters
                (resolve_by env.resolver)
                req.client_ip
                ""
                r.counter
                r.axis)
              (lookup_in snap.counters
                (judge_keys env req p snap ask headers)
                levels
                r.counter
                r.axis))
          (map rule_ref p.request.judge ++ outcome_refs p.request.outcomes)
  unfolding judge_apply judge_keys request_refs
  judge-IsLookedUp env req p snap ask bkt bkt' t headers levels applied =
      let keys = judge_keys env req p snap ask headers in
      let refs = map rule_ref p.request.judge ++ outcome_refs p.request.outcomes in
      let keyed =
        key-subjects_of snap.counters env.sha256 env.hex (resolve_by env.resolver) req.client_ip
          headers req.sessions "" (request_refs p ask) in
      All-both (IsRead snap.counters keys (reads_of snap.counters keys refs)) _ _
        (λ r read e.
          lookup_in-IsLookedUp snap.counters keys bkt bkt' snap.tiers _ _ t levels applied r _ read
            e)
        refs (reads_of-IsRead snap.counters keys refs)
        (All-left _ refs (map note_ref ask.notes) keyed)
