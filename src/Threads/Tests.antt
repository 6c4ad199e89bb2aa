-- ===== src/Threads/Tests.antt =====
-- The scheduler on concrete plans, and the computing threads on concrete arguments.
use system_design.Threads.Programs.{
  thread_setup, int_result, fibonacci_iteration, fibonacci, factorial_iteration, factorial_loop,
  factorial,
}
use mathlib.Core.List.{Perm}
use system_design.Base.{pos, none, ℕ, ◌≡◌, ◌⊎◌, refl, none, some, [], ◌∷◌, arith}
use system_design.Threads.State.{yielded, locking, exited, return_to_main, resume}
use system_design.Threads.Scheduler.{reschedule, scheduler}
use system_design.Threads.Spec.{Plan, load, running, schedule}
use system_design.Threads.Refinement.{reschedule-load}
use system_design.Threads.Progress.{IsSound, IsDone, scheduler_total}
use system_design.Threads.Order.{threads}
use system_design.Threads.Guarantees.{reschedule-perm, reschedule_hands_over}

-- Threads 0 and 2 are ready, 2 runs and owns the lock, 3 waits for it.
abbrev contended : Plan
contended = record { ready = 0 ∷ 2 ∷ []; waiting = 3 ∷ []; current = 1; owner = some 2 }

-- The same after 2 has called `unlock`.
abbrev unlocked : Plan
unlocked = record contended { owner = none }

-- Thread 0 runs, 2 owns the lock.
abbrev other_runs : Plan
other_runs = record contended { current = 0 }

unlocked-IsSound : IsSound unlocked
unlocked-IsSound = record {
  fits = record { current_ready = omega arith; room = omega arith };
  owner_ready = λ u e. cc;
}

other_runs-IsSound : IsSound other_runs
other_runs-IsSound = record {
  fits = record { current_ready = omega arith; room = omega arith };
  owner_ready = λ u e. (1, e, tt);
}

-- `unlock` and `thread_exit` of 2: 3 gets the lock and fills the hole.
handed_over :
    schedule exited unlocked
    ≡ record { ready = 0 ∷ 3 ∷ []; waiting = []; current = 1; owner = some 3 }
unfolding schedule
handed_over = refl

reschedule-load_example : reschedule exited (load unlocked) ≡ some (load (schedule exited unlocked))
reschedule-load_example = reschedule-load exited unlocked unlocked-IsSound.fits (λ e. cc)

scheduler_total_example :
    (IsDone (schedule locking other_runs)
      × (scheduler locking (load other_runs)
          ≡ some (load (schedule locking other_runs), return_to_main)))
    ⊎ ((t : ℕ) × (running (schedule locking other_runs) ≡ some t)
        × (scheduler locking (load other_runs)
            ≡ some (load (schedule locking other_runs), resume t)))
scheduler_total_example =
    scheduler_total locking other_runs (λ e. cc) other_runs-IsSound (λ u e f. cc)

reschedule-perm_example :
    (q : Plan) × (reschedule exited (load unlocked) ≡ some (load q))
    × Perm (threads unlocked) (2 ∷ threads q)
reschedule-perm_example = reschedule-perm exited unlocked (λ e. cc) unlocked-IsSound 2 refl

reschedule_hands_over_example :
    (q : Plan) × (reschedule yielded (load unlocked) ≡ some (load q))
    × (q.owner ≡ some 3)
    × (q.waiting ≡ [])
reschedule_hands_over_example =
    reschedule_hands_over yielded unlocked (λ e. cc) unlocked-IsSound 2 refl 3 [] refl refl

-- With 47 the sum leaves the range of an `int`.
fibonacci_47 : fibonacci 47 (thread_setup 1 (pos 47)) ≡ none
unfolding fibonacci thread_setup fibonacci_iteration int_result
fibonacci_47 = refl

factorial_13 : factorial 13 (thread_setup 1 (pos 13)) ≡ none
unfolding factorial factorial_loop factorial_iteration thread_setup int_result
factorial_13 = refl
