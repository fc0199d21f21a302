-- ===== src/Queue/Bounds.antt =====
-- internal/queue/queue.go: the depth of the queue, and the counters `Expired` and `Shed`.
use placitum_counter.Prelude.{
  Bool, Bool-cases, List, String, [], ap, arith, if◌then◌else◌, inl, inr, leb, length,
  length-append, length-select-le, ltb, ltb→lt, max_ℤ, not, pos, pos_part, refl, suc, true, ℕ, ℤ,
  ◌&&◌, ◌++◌, ◌==◌, ◌∷◌, ◌≡◌, ◌≤◌,
}
use placitum_counter.Queue.{
  Task, Call, Pool, reason_queue_limit, reason_deadline_exceeded, too_late, left_at, fill_locked,
  expire, shed_limit, enqueue, back_to_wait, hand_out, full_wait, take_expired, submit, enter,
  wait_round, pop, serve, close, new,
}
use placitum_counter.Queue.Steps.{Step, Run}

-- How many calls of the handler carry a reason.
unfoldable pub answered : String → List Call → ℕ
answered reason [] = 0
answered reason (c ∷ cs) =
    let rest = answered reason cs in if c.shed == reason then suc rest else rest

-- The depth is at least 1, no more tasks than that are queued, and the counters `Expired` and
-- `Shed` are the numbers of the answers with their reasons.
unfoldable pub IsValid : Pool → Type 0
unfolding answered
IsValid p =
    (1 ≤ p.depth)
    × (length p.q ≤ p.depth)
    × (p.expired ≡ answered reason_deadline_exceeded p.handled)
    × (p.shed ≡ answered reason_queue_limit p.handled)

expire-IsValid : (t : Task) (left : ℤ) (p : Pool) → IsValid p → IsValid (expire t left p)
unfolding IsValid expire answered
expire-IsValid t left p h = (h.0, h.1, ap suc h.2, h.3)

shed_limit-IsValid : (t : Task) (p : Pool) → IsValid p → IsValid (shed_limit t p)
unfolding IsValid shed_limit answered
shed_limit-IsValid t p h = (h.0, h.1, h.2, ap suc h.3)

enqueue-IsValid :
    (t : Task) (p : Pool) → ltb (length p.q) p.depth ≡ true → IsValid p → IsValid (enqueue t p)
unfolding IsValid enqueue
enqueue-IsValid t p room h =
    (h.0, omega (arith, length-append p.q (t ∷ []), ltb→lt (length p.q) p.depth room), h.2, h.3)

take_expired-IsValid : (now : ℤ) (p : Pool) → IsValid p → IsValid (take_expired now p)
unfolding IsValid take_expired
take_expired-IsValid now p h =
    (h.0, omega (arith, length-select-le (λ t. not (too_late p now t)) p.q, h.1), h.2, h.3)

-- The lists of the goroutines do not matter.
back_to_wait-IsValid : (t : Task) (p : Pool) → IsValid p → IsValid (back_to_wait t p)
unfolding IsValid
back_to_wait-IsValid t p h = h

submit-IsValid : (now : ℤ) (t : Task) (p : Pool) → IsValid p → IsValid (submit now t p)
unfolding submit IsValid
submit-IsValid now t p h =
    let stamped = record t { enqueued = now } in
    elim (Bool-cases (too_late p now stamped)) [
      | inl late ↦ rw late (expire-IsValid stamped (left_at p stamped now) p h)
      | inr timely ↦ rw timely (take_expired-IsValid now p h)
    ]

enter-IsValid : (now : ℤ) (t : Task) (p : Pool) → IsValid p → IsValid (enter now t p)
unfolding enter IsValid
enter-IsValid now t p h =
    let filled = record t { fill = fill_locked p } in
    elim (Bool-cases p.closed) [
      | inl shut ↦ simp shut (expire-IsValid t (pos 0) p h)
      | inr running ↦ elim (Bool-cases (ltb (length p.q) p.depth)) [
        | inl room ↦ simp (running, room) (enqueue-IsValid filled p room h)
        | inr full ↦ elim (Bool-cases (p.full == full_wait)) [
          | inl wait ↦ elim (Bool-cases (too_late p now filled)) [
            | inl late ↦
                simp (running, full, wait, late) (expire-IsValid filled (left_at p filled now) p h)
            | inr timely ↦ simp (running, full, wait, timely) (back_to_wait-IsValid filled p h)
          ]
          | inr other ↦ simp (running, full, other) (shed_limit-IsValid filled p h)
        ]
      ]
    ]

wait_round-IsValid :
    (now : ℤ) (timed_out : Bool) (t : Task) (p : Pool)
    → IsValid p
    → IsValid (wait_round now timed_out t p)
unfolding wait_round IsValid
wait_round-IsValid now timed_out t p h =
    elim (Bool-cases (leb p.depth (length p.q) && not timed_out && not p.closed)) [
      | inl blocked ↦ rw blocked (take_expired-IsValid now p h)
      | inr woken ↦ elim (Bool-cases p.closed) [
        | inl shut ↦ rw (woken, shut) (expire-IsValid t (pos 0) p h)
        | inr running ↦ elim (Bool-cases (ltb (length p.q) p.depth)) [
          | inl room ↦ rw (woken, running, room) (enqueue-IsValid t p room h)
          | inr full ↦ rw (woken, running, full) (expire-IsValid t (pos 0) p h)
        ]
      ]
    ]

hand_out-IsValid : (ts : List Task) (p : Pool) → p.q ≡ ts → IsValid p → IsValid (hand_out ts p)
unfolding IsValid
hand_out-IsValid [] p e h = h
hand_out-IsValid (t ∷ ts) p e h = (h.0, omega (arith, ap length e, h.1), h.2, h.3)

pop-IsValid : (now : ℤ) (p : Pool) → IsValid p → IsValid (pop now p)
unfolding pop
pop-IsValid now p h =
    hand_out-IsValid (take_expired now p).q (take_expired now p) refl (take_expired-IsValid now p h)

serve-IsValid : (now : ℤ) (t : Task) (p : Pool) → IsValid p → IsValid (serve now t p)
unfolding serve IsValid answered
serve-IsValid now t p h = elim (Bool-cases (too_late p now t)) [
  | inl late ↦ rw late (h.0, h.1, ap suc h.2, h.3)
  | inr timely ↦ rw timely h
]

-- Every step keeps the pool well formed.
Step-IsValid : (ts : List Task) (p p' : Pool) → Step ts p p' → IsValid p → IsValid p'
unfolding IsValid close
Step-IsValid _ _ _ (Step.submit now t p) h = submit-IsValid now t p h
Step-IsValid _ _ _ (Step.enter now t p before after e) h =
    enter-IsValid now t (record p { entering = before ++ after }) h
Step-IsValid _ _ _ (Step.wait_round now timed_out t p before after e) h =
    wait_round-IsValid now timed_out t (record p { waiting = before ++ after }) h
Step-IsValid _ _ _ (Step.sweep now p) h = take_expired-IsValid now p h
Step-IsValid _ _ _ (Step.reply_dead t p before after e) h =
    expire-IsValid t (pos 0) (record p { dead = before ++ after }) h
Step-IsValid _ _ _ (Step.pop now p) h = pop-IsValid now p h
Step-IsValid _ _ _ (Step.serve now t p before after e) h =
    serve-IsValid now t (record p { busy = before ++ after }) h
Step-IsValid _ _ _ (Step.close p) h = h

one_le_depth : (depth : ℤ) → 1 ≤ pos_part (max_ℤ depth (pos 1))
one_le_depth depth = ground arith

-- In every order of the goroutines' steps from a new pool, the depth is at least 1, no more tasks
-- than the depth are queued, and `Expired` and `Shed` are the numbers of handler calls with the
-- reasons COUNTER_DEADLINE_EXCEEDED and COUNTER_QUEUE_LIMIT.
pub Run-IsValid : (ts : List Task) (p : Pool) → Run ts p → IsValid p
unfolding IsValid new
Run-IsValid _ _ (Run.start depth reserve_ms min_budget_ms full) =
    (one_le_depth depth, omega (arith, one_le_depth depth), refl, refl)
Run-IsValid _ _ (Run.step new_ts ts p p' run go) =
    Step-IsValid new_ts p p' go (Run-IsValid ts p run)
