-- ===== src/Threads/Scheduler.antt =====
-- `scheduler` of UserLevelThreadLibrary/scheduler.c, a function for each repeated part of its body.
use system_design.Base.{
  ℕ, zero, suc, ◌+◌, ◌-◌, ◌%◌, ◌&&◌, Option, none, some, if◌then◌else◌, ltb, ◌==◌, ◌>>=◌, is_none,
}
use system_design.Threads.State.{
  Sched, Slots, Jump, called, yielded, locking, exited, Target, return_to_main, resume, read, write,
  last_index,
}

-- `myclear`: `which` is 0 for the ready queue.
unfoldable pub myclear : ℕ → ℕ → Sched → Option Sched
myclear idx which s =
    if which == 0
    then (do slots ← write s.ready_queue idx none; some (record s { ready_queue = slots }))
    else (do slots ← write s.waiting_queue idx none; some (record s { waiting_queue = slots }))

-- `for (i = 0; i < wq_size; i++) waiting_queue[i] = waiting_queue[i + 1]`, `n` rounds from `i`.
unfoldable pub shift_down : ℕ → ℕ → Slots → Option Slots
shift_down zero i slots = some slots
shift_down (suc n) i slots = do
  next ← read slots (i + 1)
  slots' ← write slots i next
  shift_down n (i + 1) slots'

-- The first waiting thread becomes ready and owns the lock.
unfoldable pub bring_first : Sched → Option Sched
unfolding myclear
bring_first s = do
  next_thread ← read s.waiting_queue 0
  ready ← write s.ready_queue s.rq_size next_thread
  waiting ← shift_down s.wq_size 0 s.waiting_queue
  s' ← myclear s.wq_size 1 (record s { ready_queue = ready; waiting_queue = waiting })
  added ← read s'.ready_queue s.rq_size
  owner ← added
  some (record s' { rq_size = s.rq_size + 1; wq_size = s.wq_size - 1; lock_owner = some owner })

-- The last ready thread fills the hole that the current one leaves.
unfoldable pub fill_hole : Sched → Option Sched
unfolding myclear
fill_hole s = do
  s₁ ← myclear s.rq_current 0 s
  last ← last_index s.rq_size
  last_thread ← read s₁.ready_queue last
  ready ← write s₁.ready_queue s.rq_current last_thread
  s₂ ← myclear last 0 (record s₁ { ready_queue = ready })
  some (record s₂ { rq_size = last })

-- The same with the test for the end of the queue, after which the first thread is current.
unfoldable pub remove_current : Sched → Option Sched
unfolding fill_hole
remove_current s = do
  last ← last_index s.rq_size
  if s.rq_current == last
      then (do s' ← myclear s.rq_current 0 s; some (record s' { rq_size = last; rq_current = 0 }))
      else fill_hole s

-- The current thread is appended to the waiting queue.
unfoldable pub park_current : Sched → Option Sched
park_current s = do
  nolock_thread ← read s.ready_queue s.rq_current
  waiting ← write s.waiting_queue s.wq_size nolock_thread
  some (record s { waiting_queue = waiting; wq_size = s.wq_size + 1 })

-- `rq_current = (rq_current + 1) % rq_size`
unfoldable pub advance : Sched → Option Sched
advance s =
    if s.rq_size == 0 then none else some (record s { rq_current = (s.rq_current + 1) % s.rq_size })

-- Threads wait and the lock is free.
unfoldable pub when_lock_free : Jump → Sched → Option Sched
when_lock_free called s = some s
when_lock_free exited s = do s' ← bring_first s; fill_hole s'
when_lock_free locking s = do s' ← bring_first s; s'' ← park_current s'; fill_hole s''
when_lock_free yielded s = do s' ← bring_first s; advance s'

-- Threads wait and the lock is held.
unfoldable pub when_lock_held : Jump → Sched → Option Sched
when_lock_held called s = some s
when_lock_held exited s = remove_current s
when_lock_held locking s = do s' ← park_current s; remove_current s'
when_lock_held yielded s = advance s

-- `bank.lock_owner = ready_queue[rq_current]->id`
unfoldable pub take_lock : Sched → Option Sched
take_lock s = do
  current ← read s.ready_queue s.rq_current
  id ← current
  some (record s { lock_owner = some id })

-- No thread waits.
unfoldable pub when_none_wait : Jump → Sched → Option Sched
when_none_wait called s = some s
when_none_wait exited s = remove_current s
when_none_wait locking s =
    if is_none s.lock_owner then take_lock s else (do s' ← park_current s; remove_current s')
when_none_wait yielded s = advance s

unfoldable pub reschedule : Jump → Sched → Option Sched
reschedule called s = some (record s { rq_current = 0 })
reschedule see s =
    if ltb 0 s.wq_size
    then (if is_none s.lock_owner then when_lock_free see s else when_lock_held see s)
    else when_none_wait see s

-- The end of `scheduler`: return, or jump into RUNNING.
unfoldable pub dispatch : Sched → Option (Sched × Target)
dispatch s =
    if s.rq_size == 0 && s.wq_size == 0
    then some (s, return_to_main)
    else (do running ← read s.ready_queue s.rq_current; id ← running; some (s, resume id))

unfoldable pub scheduler : Jump → Sched → Option (Sched × Target)
unfolding dispatch
scheduler see s = do s' ← reschedule see s; dispatch s'
