-- ===== src/Threads/Guarantees.antt =====
-- What `scheduler` guarantees to the threads, stated of its array code.
use mathlib.Core.List.{Perm}
use system_design.Base.{ℕ, ◌≡◌, ◌≢◌, ◌⊎◌, none, some, List, [], ◌∷◌, ◌++◌}
use system_design.Threads.State.{Jump, called}
use system_design.Threads.Scheduler.{reschedule}
use system_design.Threads.Spec.{Plan, load, running, schedule}
use system_design.Threads.Refinement.{reschedule-load}
use system_design.Threads.Progress.{IsSound, IsDone, Leaves, schedule-IsSound}
use system_design.Threads.Order.{
  threads, leavers, parked, schedule-perm, schedule-hands_over, schedule-lock_free,
}

module _ (see : Jump) (p : Plan) (entered_by_jump : see ≢ called) (s : IsSound p) where
  -- After a jump of a running thread, which does not park or exit as the owner of the lock, either no
  -- thread is left, or the running index is in range, the threads fit their arrays and the owner of
  -- the lock is ready.
  pub reschedule-IsSound :
      Leaves see p → (q : Plan) × (reschedule see (load p) ≡ some (load q)) × (IsDone q ⊎ IsSound q)
  reschedule-IsSound l = (
    schedule see p,
    reschedule-load see p s.fits entered_by_jump,
    schedule-IsSound see p entered_by_jump s l,
  )

  module _ (t : ℕ) (runs : running p ≡ some t) where
    -- A jump by thread `t` loses and doubles no thread: the ready and the waiting threads after it are
    -- those before it, less `t` if it exits.
    pub reschedule-perm :
        (q : Plan) × (reschedule see (load p) ≡ some (load q))
        × Perm (threads p) (leavers see t ++ threads q)
    reschedule-perm =
        (schedule see p, reschedule-load see p s.fits entered_by_jump, schedule-perm see p t s runs)

    -- A free lock goes to the thread that has waited longest, whatever the jump; the others keep their
    -- order, and a thread that asks for the lock queues behind them.
    pub reschedule_hands_over :
        (w : ℕ) (ws : List ℕ)
        → p.owner ≡ none
        → p.waiting ≡ w ∷ ws
        → (q : Plan) × (reschedule see (load p) ≡ some (load q))
          × (q.owner ≡ some w)
          × (q.waiting ≡ ws ++ parked see t)
    reschedule_hands_over w ws free first =
        let (o, e) = schedule-hands_over see p t w ws entered_by_jump s runs free first in
        (schedule see p, reschedule-load see p s.fits entered_by_jump, o, e)

    -- Nobody is left waiting for a free lock.
    pub reschedule_lock_free :
        (q : Plan) × (reschedule see (load p) ≡ some (load q)) × (q.owner ≡ none → q.waiting ≡ [])
    reschedule_lock_free = (
      schedule see p,
      reschedule-load see p s.fits entered_by_jump,
      schedule-lock_free see p t entered_by_jump s runs,
    )
