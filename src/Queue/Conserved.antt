-- ===== src/Queue/Conserved.antt =====
-- internal/queue/queue.go: the tasks that the pool holds and those it has answered.
use placitum_counter.Prelude.{
  Bool, Bool-cases, List, String, [], ap, arith, false, inl, inr, leb, length, ltb, map, not, pos,
  refl, select, true, ℕ, ℤ, ◌&&◌, ◌++◌, ◌+◌, ◌==◌, ◌∙◌, ◌∷◌, ◌≡◌,
}
use placitum_counter.Queue.{
  Task, Pool, too_late, left_at, fill_locked, expire, shed_limit, enqueue, back_to_wait, hand_out,
  full_wait, take_expired, submit, enter, wait_round, pop, serve, close, new,
}
use placitum_counter.Queue.Steps.{Step, Run}

abbrev pub one : Bool → ℕ
one true = 1
one false = 0

-- How many tasks of a list answer to a subject.
unfoldable pub count : String → List Task → ℕ
count s [] = 0
count s (t ∷ ts) = one (t.reply == s) + count s ts

count-append : (s : String) (xs ys : List Task) → count s (xs ++ ys) ≡ count s xs + count s ys
unfolding count
count-append s [] ys = omega arith
count-append s (x ∷ xs) ys = omega (arith, count-append s xs ys)

count-remove :
    (s : String) (t : Task) (xs ys zs : List Task)
    → xs ≡ ys ++ (t ∷ zs)
    → count s xs ≡ one (t.reply == s) + count s (ys ++ zs)
unfolding count
count-remove s t xs ys zs e =
    ap (count s) e ∙ omega (arith, count-append s ys (t ∷ zs), count-append s ys zs)

count-split :
    (s : String) (late : Task → Bool) (xs : List Task)
    → count s (select (λ t. not (late t)) xs) + count s (select late xs) ≡ count s xs
unfolding count select
count-split s late [] = refl
count-split s late (x ∷ xs) = ground (arith, count-split s late xs)

-- How often a subject stands in the pool: in the queue, with a goroutine, or answered.
unfoldable pub copies : String → Pool → ℕ
unfolding count
copies s p =
    count s p.q
    + count s p.entering
    + count s p.waiting
    + count s p.dead
    + count s p.busy
    + count s (map (λ c. c.task) p.handled)

copies-take_expired : (s : String) (now : ℤ) (p : Pool) → copies s (take_expired now p) ≡ copies s p
unfolding copies take_expired
copies-take_expired s now p =
    omega (
      arith,
      count-split s (too_late p now) p.q,
      count-append s (select (too_late p now) p.q) p.dead,
    )

copies-expire :
    (s : String) (t : Task) (left : ℤ) (p : Pool)
    → copies s (expire t left p) ≡ one (t.reply == s) + copies s p
unfolding copies expire count
copies-expire s t left p = omega arith

copies-shed_limit :
    (s : String) (t : Task) (p : Pool) → copies s (shed_limit t p) ≡ one (t.reply == s) + copies s p
unfolding copies shed_limit count
copies-shed_limit s t p = omega arith

copies-enqueue :
    (s : String) (t : Task) (p : Pool) → copies s (enqueue t p) ≡ one (t.reply == s) + copies s p
unfolding copies enqueue count
copies-enqueue s t p = omega (arith, count-append s p.q (t ∷ []))

copies-waiting :
    (s : String) (t : Task) (p : Pool)
    → copies s (back_to_wait t p) ≡ one (t.reply == s) + copies s p
unfolding copies count
copies-waiting s t p = omega arith

copies-submit :
    (s : String) (now : ℤ) (t : Task) (p : Pool)
    → copies s (submit now t p) ≡ one (t.reply == s) + copies s p
unfolding submit copies count
copies-submit s now t p =
    let stamped = record t { enqueued = now } in
    elim (Bool-cases (too_late p now stamped)) [
      | inl late ↦ rw late (copies-expire s stamped (left_at p stamped now) p)
      | inr timely ↦ rw timely (omega (arith, copies-take_expired s now p))
    ]

copies-enter :
    (s : String) (now : ℤ) (t : Task) (p : Pool)
    → copies s (enter now t p) ≡ one (t.reply == s) + copies s p
unfolding enter copies
copies-enter s now t p =
    let filled = record t { fill = fill_locked p } in
    elim (Bool-cases p.closed) [
      | inl shut ↦ rw shut (copies-expire s t (pos 0) p)
      | inr running ↦ elim (Bool-cases (ltb (length p.q) p.depth)) [
        | inl room ↦ rw (running, room) (copies-enqueue s filled p)
        | inr full ↦ elim (Bool-cases (p.full == full_wait)) [
          | inl wait ↦ elim (Bool-cases (too_late p now filled)) [
            | inl late ↦
                rw (running, full, wait, late) (copies-expire s filled (left_at p filled now) p)
            | inr timely ↦ rw (running, full, wait, timely) (copies-waiting s filled p)
          ]
          | inr other ↦ rw (running, full, other) (copies-shed_limit s filled p)
        ]
      ]
    ]

copies-wait_round :
    (s : String) (now : ℤ) (timed_out : Bool) (t : Task) (p : Pool)
    → copies s (wait_round now timed_out t p) ≡ one (t.reply == s) + copies s p
unfolding wait_round copies
copies-wait_round s now timed_out t p =
    elim (Bool-cases (leb p.depth (length p.q) && not timed_out && not p.closed)) [
      | inl blocked ↦ rw blocked (
          copies-waiting s t (take_expired now p)
          ∙ ap (λ n. one (t.reply == s) + n) (copies-take_expired s now p))
      | inr woken ↦ elim (Bool-cases p.closed) [
        | inl shut ↦ rw (woken, shut) (copies-expire s t (pos 0) p)
        | inr running ↦ elim (Bool-cases (ltb (length p.q) p.depth)) [
          | inl room ↦ rw (woken, running, room) (copies-enqueue s t p)
          | inr full ↦ rw (woken, running, full) (copies-expire s t (pos 0) p)
        ]
      ]
    ]

copies-hand_out :
    (s : String) (ts : List Task) (p : Pool) → p.q ≡ ts → copies s (hand_out ts p) ≡ copies s p
unfolding copies count
copies-hand_out s [] p e = refl
copies-hand_out s (t ∷ ts) p e = omega (arith, ap (count s) e)

copies-pop : (s : String) (now : ℤ) (p : Pool) → copies s (pop now p) ≡ copies s p
unfolding pop
copies-pop s now p =
    copies-hand_out s (take_expired now p).q (take_expired now p) refl ∙ copies-take_expired s now p

copies-serve :
    (s : String) (now : ℤ) (t : Task) (p : Pool)
    → copies s (serve now t p) ≡ one (t.reply == s) + copies s p
unfolding copies serve count
copies-serve s now t p = omega arith

-- A goroutine takes its task out of a list and hands it over: the step adds no copy.
Step-copies :
    (s : String) (ts : List Task) (p p' : Pool)
    → Step ts p p'
    → copies s p' ≡ count s ts + copies s p
unfolding copies count close
Step-copies s _ _ _ (Step.submit now t p) = copies-submit s now t p ∙ omega arith
Step-copies s _ _ _ (Step.enter now t p before after e) =
    copies-enter s now t (record p { entering = before ++ after })
    ∙ omega (arith, count-remove s t p.entering before after e)
Step-copies s _ _ _ (Step.wait_round now timed_out t p before after e) =
    copies-wait_round s now timed_out t (record p { waiting = before ++ after })
    ∙ omega (arith, count-remove s t p.waiting before after e)
Step-copies s _ _ _ (Step.sweep now p) = copies-take_expired s now p ∙ omega arith
Step-copies s _ _ _ (Step.reply_dead t p before after e) =
    copies-expire s t (pos 0) (record p { dead = before ++ after })
    ∙ omega (arith, count-remove s t p.dead before after e)
Step-copies s _ _ _ (Step.pop now p) = copies-pop s now p ∙ omega arith
Step-copies s _ _ _ (Step.serve now t p before after e) =
    copies-serve s now t (record p { busy = before ++ after })
    ∙ omega (arith, count-remove s t p.busy before after e)
Step-copies s _ _ _ (Step.close p) = omega arith

-- In every order of the goroutines' steps, a reply subject stands in the pool (in the queue, with
-- a goroutine, or among the calls of the handler) exactly as often as tasks with it were submitted:
-- no task is lost and none is answered twice.
pub Run-conserves : (s : String) (ts : List Task) (p : Pool) → Run ts p → copies s p ≡ count s ts
unfolding copies count new
Run-conserves s _ _ (Run.start depth reserve_ms min_budget_ms full) = refl
Run-conserves s _ _ (Run.step new_ts ts' p' p run go) =
    Step-copies s new_ts p' p go
    ∙ omega (arith, Run-conserves s ts' p' run, count-append s new_ts ts')
