-- ===== src/Witnesses/State.antt =====
-- The theorems on the buckets and on the pool of tasks at concrete inputs.
use placitum_counter.Prelude.{
  All, List, String, [], arith, false, length, map, map_get, none, ok, pos, refl, select, some,
  wrap64, ℤ, ◌&&◌, ◌||◌, ◌∷◌, ◌≡◌, ◌≤◌,
}
use placitum_counter.Buckets.{
  sort_refs, add_refs, sum_of, Tier, Level, Ref, Charge, Tiers, has_ref, admits, ref_union, live,
  effective_at, apply, apply_refs, store_key,
}
use placitum_counter.Buckets.Union.{Distinct, ref_union-members}
use placitum_counter.Buckets.Ledger.{LevelInRange, apply-bounds, apply_refs-other}
use placitum_counter.Buckets.Remote.{Exec, settle, apply_remote}
use placitum_counter.Buckets.Agree.{apply_remote-bounds, settle-eq-effective_at}
use placitum_counter.Queue.{Task, Pool}
use placitum_counter.Queue
use placitum_counter.Queue.Steps.{Step, Run}
use placitum_counter.Queue.Conserved.{copies, count, Run-conserves}
use placitum_counter.Queue.Bounds.{IsValid, Run-IsValid}
use placitum_counter.Witnesses.Data.{int_float, request}

abbrev tier : Tier ℤ
tier = record { max = pos 100; loss = pos 5 }

abbrev tiers : Tiers ℤ
tiers = ("login:ip", tier) ∷ []

abbrev address : Ref
address = record { kind = "login:ip"; key = "10.0.0.1/32" }

abbrev charges : List (Charge ℤ)
charges = record { ref = address; add = pos 30 } ∷ []

abbrev ledger : List (String × ℤ)
ledger = ("cnt:bkt:login:ip:10.0.0.2/32", pos 70) ∷ []

apply-bounds_example :
    All (LevelInRange tiers) (apply 10 tiers charges (address ∷ []) (pos 3) ledger).0
    × (map (λ l. l.ref) (apply 10 tiers charges (address ∷ []) (pos 3) ledger).0
        ≡ ref_union tiers (live tiers charges) (address ∷ []))
    × (length (apply 10 tiers charges (address ∷ []) (pos 3) ledger).1 ≤ 10)
apply-bounds_example = apply-bounds 10 tiers charges (address ∷ []) (pos 3) ledger (omega arith)

ref_union-members_example :
    ((r : Ref)
      → has_ref (ref_union tiers charges (address ∷ [])) r
        ≡ (admits tiers r && (has_ref (map (λ c. c.ref) charges) r || has_ref (address ∷ []) r)))
    × Distinct (ref_union tiers charges (address ∷ []))
ref_union-members_example = ref_union-members tiers charges (address ∷ [])

apply_refs-other_example :
    map_get "cnt:bkt:login:ip:10.0.0.2/32"
      (apply_refs tiers charges (pos 3) (address ∷ []) ledger).1
    ≡ map_get "cnt:bkt:login:ip:10.0.0.2/32" ledger
apply_refs-other_example =
    apply_refs-other "cnt:bkt:login:ip:10.0.0.2/32" tiers charges (pos 3) (address ∷ []) ledger
      (unfold store_key in refl, tt)

abbrev task : Task
task = record { req = request; reply = "_INBOX.1"; personal = false; fill = 0; enqueued = pos 0 }

abbrev stamped : Task
stamped = record task { enqueued = pos 1000 }

abbrev new_pool : Pool
new_pool = Queue.new (pos 1) (pos 5) (pos 1) "wait"

abbrev submitted : Pool
submitted = Queue.submit (pos 1000) task new_pool

submitted-Run : Run (task ∷ []) submitted
submitted-Run =
    Run.step (task ∷ []) [] new_pool submitted (Run.start (pos 1) (pos 5) (pos 1) "wait")
      (Step.submit (pos 1000) task new_pool)

abbrev queued : Pool
queued = Queue.enter (pos 2000) stamped (record submitted { entering = [] })

queued-Run : Run (task ∷ []) queued
unfolding wrap64
queued-Run =
    Run.step [] (task ∷ []) submitted queued submitted-Run
      (Step.enter (pos 2000) stamped submitted [] [] (unfold Queue.submit Queue.new in refl))

abbrev popped : Pool
popped = Queue.pop (pos 3000) queued

popped-Run : Run (task ∷ []) popped
popped-Run = Run.step [] (task ∷ []) queued popped queued-Run (Step.pop (pos 3000) queued)

Run-conserves_example : copies "_INBOX.1" popped ≡ count "_INBOX.1" (task ∷ [])
Run-conserves_example = Run-conserves "_INBOX.1" (task ∷ []) popped popped-Run

Run-IsValid_example : IsValid popped
Run-IsValid_example = Run-IsValid (task ∷ []) popped popped-Run

abbrev answering : Exec ℤ
answering commands = ok (some (pos 45) ∷ [])

abbrev answered : List (Level ℤ)
answered = record { ref = address; score = pos 45; percent = pos 0 } ∷ []

answered_lem : apply_remote answering tiers charges [] (pos 3) ≡ ok answered
unfolding apply_remote ref_union sort_refs add_refs live select map_get admits has_ref sum_of
answered_lem = refl

apply_remote-bounds_example :
    All (LevelInRange tiers) answered
    × (map (λ l. l.ref) answered ≡ ref_union tiers (live tiers charges) [])
apply_remote-bounds_example =
    apply_remote-bounds answering tiers charges [] (pos 3) answered answered_lem

settle-eq-effective_at_example :
    settle tier (pos 3) none (pos 45) ≡ (effective_at tier (pos 3) (some (pos 45)), false)
settle-eq-effective_at_example = settle-eq-effective_at tier (pos 3) (pos 45) refl
