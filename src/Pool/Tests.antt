-- ===== src/Pool/Tests.antt =====
-- The thread pool on concrete runs.
use system_design.Base.{
  ℕ, ◌<◌, ◌≡◌, ◌≢◌, inl, refl, Option, none, some, List, [], ◌∷◌, ◌++◌, arith, Bool,
}
use system_design.Pool.State.{Call, Heap, Memory}
use system_design.Pool.Code.{
  Entry, worker_enter, worker_finish, tpool_add, is_idle, job_call, begin_shutdown, all_gone,
}
use system_design.Pool.System.{
  System, ready, finishing, gone, destroyed, tested_wait, Reach, start, initial, later, add, enter,
  finish, call_wait, call_destroy, retest_destroy, entered, finished, added, tested_destroy,
  shut_down,
}
use system_design.Pool.Script.{
  Program, over, begin, between, adds, waits, destroys, label, sample_jobs,
}
use system_design.Pool.Ending.{program_ends}
use system_design.Pool.Safety.{
  sections_total, ran_in_order, wait_complete, waiter_not_stuck, CanRun,
}

abbrev no_heap : Heap
no_heap _ = none

abbrev first_call : Call
first_call = record { myfunc = 7; arg = 1 }

abbrev second_call : Call
second_call = record { myfunc = 8; arg = 2 }

-- Two calls in the queue of one worker.
record Run : Type 0 where
  last : System
  reach : Reach 1 no_heap last

abbrev queued : Run
unfolding start tpool_add added
queued = record {
  last = _;
  reach =
      later (later initial (add 40 first_call _ refl refl refl))
        (add 48 second_call _ refl refl refl);
}

-- The worker has taken the first.
abbrev taken : Run
unfolding start tpool_add added worker_enter entered
taken = record { last = _; reach = later queued.reach (enter 0 _ _ (omega arith) refl refl) }

-- The client sleeps in `tpool_wait`.
abbrev sleeping : Run
unfolding start tpool_add added worker_enter entered tested_wait
sleeping = record { last = _; reach = later taken.reach (call_wait refl) }

-- The worker has run both calls.
abbrev drained : Run
unfolding start tpool_add added worker_enter entered worker_finish is_idle finished job_call
drained = record {
  last = _;
  reach =
      later
        (later (later taken.reach (finish 0 _ _ _ (omega arith) refl refl))
          (enter 0 _ _ (omega arith) refl refl))
        (finish 0 _ _ _ (omega arith) refl refl);
}

drained_history : drained.last.ran ≡ first_call ∷ second_call ∷ []
unfolding drained
drained_history = refl

sections_total_example :
    ((i : ℕ)
      → i < 1
      → taken.last.workers i ≡ ready
      → (out : Memory × Entry) × (worker_enter taken.last.memory ≡ some out))
    × ((i : ℕ) (j : Option ℕ)
        → i < 1
        → taken.last.workers i ≡ finishing j
        → (out : Memory × Bool) × (worker_finish j taken.last.memory ≡ some out))
    × ((a : ℕ) (c : Call)
        → taken.last.memory.heap a ≡ none
        → (m : Memory) × (tpool_add a c taken.last.memory ≡ some m))
    × (taken.last.client ≡ destroyed → (i : ℕ) → i < 1 → taken.last.workers i ≡ gone)
sections_total_example = sections_total taken.reach

ran_in_order_example : (rest : List Call) × (taken.last.ran ++ rest ≡ taken.last.submitted)
ran_in_order_example = ran_in_order taken.reach

wait_complete_example :
    (drained.last.ran ≡ drained.last.submitted)
    × ((i a : ℕ) → i < 1 → drained.last.workers i ≢ finishing (some a))
unfolding drained tested_wait
wait_complete_example = wait_complete drained.reach refl

waiter_not_stuck_example : (i : ℕ) × (i < 1) × CanRun (sleeping.last.workers i)
unfolding sleeping is_idle
waiter_not_stuck_example = waiter_not_stuck sleeping.reach (omega arith) (inl refl)

zero_lt : 0 < 1
zero_lt = omega arith

-- The program sample with one worker, up to its end.
record Finished : Type 0 where
  last : System
  run : Program 1 no_heap (sample_jobs 7 8 100) over last

abbrev sample : Finished
unfolding start tpool_add added worker_enter entered worker_finish is_idle finished job_call label
    tested_wait shut_down begin_shutdown tested_destroy all_gone
sample =
    let taken₀ =
      adds (adds (adds begin (add 40 _ _ refl refl refl) refl) (add 48 _ _ refl refl refl) refl)
        (add 56 _ _ refl refl refl) refl in
    let taken₁ =
      between (between taken₀ (enter 0 _ _ zero_lt refl refl) refl)
        (finish 0 _ _ _ zero_lt refl refl) refl in
    let taken₂ =
      between (between taken₁ (enter 0 _ _ zero_lt refl refl) refl)
        (finish 0 _ _ _ zero_lt refl refl) refl in
    let taken₃ =
      between (between taken₂ (enter 0 _ _ zero_lt refl refl) refl)
        (finish 0 _ _ _ zero_lt refl refl) refl in
    let left = destroys (waits taken₃ (call_wait refl) refl) (call_destroy refl) refl in
    record {
      last = _;
      run = between (between left (enter 0 _ _ zero_lt refl refl) refl) (retest_destroy refl) refl;
    }

program_ends_example :
    (sample.last.ran ≡ sample_jobs 7 8 100) × ((i : ℕ) → i < 1 → sample.last.workers i ≡ gone)
unfolding sample
program_ends_example = program_ends sample.run refl
