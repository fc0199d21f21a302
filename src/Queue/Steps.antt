-- ===== src/Queue/Steps.antt =====
-- internal/queue/queue.go: the steps of the goroutines that share the pool, in any order.
use placitum_counter.Prelude.{Bool, List, String, [], pos, ℤ, ◌++◌, ◌∷◌, ◌≡◌}
use placitum_counter.Queue.{Task, Pool, take_expired, expire}
use placitum_counter.Queue

-- `Step ts p p'`: the pool goes from `p` to `p'`, and `ts` is submitted. The step of a goroutine that holds a task takes it out of the list that it stood in.
pub data Step : List Task → Pool → Pool → Type 0 where
  submit : (now : ℤ) (t : Task) (p : Pool) → Step (t ∷ []) p (Queue.submit now t p)
  enter :
      (now : ℤ) (t : Task) (p : Pool) (before after : List Task)
      → p.entering ≡ before ++ (t ∷ after)
      → Step [] p (Queue.enter now t (record p { entering = before ++ after }))
  wait_round :
      (now : ℤ) (timed_out : Bool) (t : Task) (p : Pool) (before after : List Task)
      → p.waiting ≡ before ++ (t ∷ after)
      → Step [] p (Queue.wait_round now timed_out t (record p { waiting = before ++ after }))
  sweep : (now : ℤ) (p : Pool) → Step [] p (take_expired now p)
  reply_dead :
      (t : Task) (p : Pool) (before after : List Task)
      → p.dead ≡ before ++ (t ∷ after)
      → Step [] p (expire t (pos 0) (record p { dead = before ++ after }))
  pop : (now : ℤ) (p : Pool) → Step [] p (Queue.pop now p)
  serve :
      (now : ℤ) (t : Task) (p : Pool) (before after : List Task)
      → p.busy ≡ before ++ (t ∷ after)
      → Step [] p (Queue.serve now t (record p { busy = before ++ after }))
  close : (p : Pool) → Step [] p (Queue.close p)

-- `Run ts p`: a new pool reaches `p`, and `ts` was submitted on the way.
pub data Run : List Task → Pool → Type 0 where
  start :
      (depth reserve_ms min_budget_ms : ℤ) (full : String)
      → Run [] (Queue.new depth reserve_ms min_budget_ms full)
  step : (new_ts ts : List Task) (p p' : Pool) → Run ts p → Step new_ts p p' → Run (new_ts ++ ts) p'
