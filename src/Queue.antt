-- ===== src/Queue.antt =====
-- internal/queue/queue.go: the pool of tasks. A duration is an int64 of nanoseconds, the clock is
-- the argument `now`. What a goroutine does under the lock is one function on the pool, and so is a
-- call of the handler; the tasks that a goroutine holds in between stand in `entering`, `waiting`,
-- `dead` and `busy`. `handled` lists the calls of the handler, the last one first. A locked
-- section reads the clock once. Condition variables, timers and the `flow` statistics are not modelled; a waiting
-- goroutine may wake at any time, timed out or not.
use placitum_counter.Prelude.{
  Bool, List, String, [], false, if◌then◌else◌, leb, length, ltb, ltb_ℤ, max_ℤ, neg_part, negsuc,
  not, pos, pos_part, select, sub_ℕ, suc, true, wrap64, ℕ, ℤ, ◌&&◌, ◌*◌, ◌++◌, ◌+◌, ◌-◌, ◌/◌, ◌==◌,
  ◌∷◌,
}
use placitum_counter.Protocol.{Request}
pub mod Steps
pub mod Conserved
pub mod Bounds

abbrev pub reason_queue_limit : String
reason_queue_limit = "COUNTER_QUEUE_LIMIT"

abbrev pub reason_deadline_exceeded : String
reason_deadline_exceeded = "COUNTER_DEADLINE_EXCEEDED"

abbrev pub full_drop : String
full_drop = "drop"

abbrev pub full_wait : String
full_wait = "wait"

pub record Task : Type 0 where
  pub req : Request
  pub reply : String
  pub personal : Bool
  pub fill : ℕ
  pub enqueued : ℤ

-- A call of the handler: the task, its budget and the reason of a shed one.
pub record Call : Type 0 where
  pub task : Task
  pub budget : ℤ
  pub shed : String

pub record Pool : Type 0 where
  pub q : List Task
  pub depth : ℕ
  pub closed : Bool
  pub full : String
  pub reserve : ℤ
  pub min_budget : ℤ
  pub accepted : ℕ
  pub shed : ℕ
  pub expired : ℕ
  pub entering : List Task
  pub waiting : List Task
  pub dead : List Task
  pub busy : List Task
  pub handled : List Call

-- `time.Duration(ms) * time.Millisecond`
unfoldable pub millis : ℤ → ℤ
millis (pos n) = wrap64 (pos (n * 1000000))
millis (negsuc n) = wrap64 (negsuc (suc n * 1000000 - 1))

-- Go's `a - b` on int64.
unfoldable pub sub64 : ℤ → ℤ → ℤ
sub64 a b = wrap64 (sub_ℕ (pos_part a + neg_part b) (pos_part b + neg_part a))

-- `now.Sub(t)`, which stays at the bounds of int64.
unfoldable pub since : ℤ → ℤ → ℤ
since now t =
    let d = sub_ℕ (pos_part now + neg_part t) (pos_part t + neg_part now) in
    if ltb 9223372036854775807 (pos_part d)
    then pos 9223372036854775807
    else if ltb 9223372036854775808 (neg_part d)
    then negsuc 9223372036854775807
    else d

-- `New`
unfoldable pub new : ℤ → ℤ → ℤ → String → Pool
unfolding millis
new depth reserve_ms min_budget_ms full = record {
  q = [];
  depth = pos_part (max_ℤ depth (pos 1));
  closed = false;
  full = if full == "" then full_drop else full;
  reserve = millis reserve_ms;
  min_budget = millis min_budget_ms;
  accepted = 0;
  shed = 0;
  expired = 0;
  entering = [];
  waiting = [];
  dead = [];
  busy = [];
  handled = [];
}

-- `leftAt`, and `waitLeft` with the clock at `now`.
unfoldable pub left_at : Pool → Task → ℤ → ℤ
unfolding millis sub64 since
left_at p t now = sub64 (sub64 (millis t.req.deadline_ms) (since now t.enqueued)) p.reserve

-- The tests on the time that a task has left.
unfoldable pub too_late : Pool → ℤ → Task → Bool
unfolding left_at
too_late p now t = ltb_ℤ (left_at p t now) p.min_budget

-- `expire`
unfoldable pub expire : Task → ℤ → Pool → Pool
expire t left p = record p {
  expired = suc p.expired;
  handled = record { task = t; budget = left; shed = reason_deadline_exceeded } ∷ p.handled;
}

-- `shedLimit`
unfoldable pub shed_limit : Task → Pool → Pool
shed_limit t p = record p {
  shed = suc p.shed;
  handled = record { task = t; budget = pos 0; shed = reason_queue_limit } ∷ p.handled;
}

-- `enqueueLocked`
unfoldable pub enqueue : Task → Pool → Pool
enqueue t p = record p { q = p.q ++ (t ∷ []); accepted = suc p.accepted }

-- `fillLocked`
unfoldable pub fill_locked : Pool → ℕ
fill_locked p = if leb p.depth (length p.q) then 100 else length p.q * 100 / p.depth

-- `takeExpiredLocked`: the tasks that are too late leave the queue, to be answered by the caller.
unfoldable pub take_expired : ℤ → Pool → Pool
unfolding too_late
take_expired now p = record p {
  q = select (λ t. not (too_late p now t)) p.q;
  dead = select (too_late p now) p.q ++ p.dead;
}

-- `Submit` until it takes the lock: the task is stamped, and answered when it is too late already.
unfoldable pub submit : ℤ → Task → Pool → Pool
unfolding left_at too_late expire take_expired
submit now t p =
    let stamped = record t { enqueued = now } in
    if too_late p now stamped
    then expire stamped (left_at p stamped now) p
    else let p' = take_expired now p in record p' { entering = stamped ∷ p'.entering }

abbrev pub back_to_wait : Task → Pool → Pool
back_to_wait t p = record p { waiting = t ∷ p.waiting }

-- `Submit` under the lock, and the first guard of `submitWaitLocked`.
unfoldable pub enter : ℤ → Task → Pool → Pool
unfolding left_at too_late expire fill_locked enqueue shed_limit
enter now t p =
    let filled = record t { fill = fill_locked p } in
    if p.closed
    then expire t (pos 0) p
    else if ltb (length p.q) p.depth
    then enqueue filled p
    else if p.full == full_wait
    then if too_late p now filled
      then expire filled (left_at p filled now) p
      else back_to_wait filled p
    else shed_limit filled p

-- A round of the loop of `submitWaitLocked` when the goroutine has the lock.
unfoldable pub wait_round : ℤ → Bool → Task → Pool → Pool
unfolding take_expired expire enqueue
wait_round now timed_out t p =
    if leb p.depth (length p.q) && not timed_out && not p.closed
    then back_to_wait t (take_expired now p)
    else if p.closed
    then expire t (pos 0) p
    else if ltb (length p.q) p.depth
    then enqueue t p
    else expire t (pos 0) p

abbrev pub hand_out : List Task → Pool → Pool
hand_out [] p = p
hand_out (t ∷ ts) p = record p { q = ts; busy = t ∷ p.busy }

-- `pop`
unfoldable pub pop : ℤ → Pool → Pool
unfolding take_expired
pop now p = let p' = take_expired now p in hand_out p'.q p'

-- `budget` and the call of the handler in `work`.
unfoldable pub serve : ℤ → Task → Pool → Pool
unfolding left_at too_late
serve now t p =
    let left = left_at p t now in
    let late = too_late p now t in
    record p {
      expired = if late then suc p.expired else p.expired;
      handled =
          record { task = t; budget = left; shed = if late then reason_deadline_exceeded else "" }
          ∷ p.handled;
    }

-- `Close`
unfoldable pub close : Pool → Pool
close p = record p { closed = true }
