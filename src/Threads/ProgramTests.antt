-- ===== src/Threads/ProgramTests.antt =====
-- The whole program of UserLevelThreadLibrary on concrete arguments and signals.
use system_design.Base.{
  ℕ, ◌+◌, ◌≤◌, ◌≡◌, ◌⊎◌, refl, pos, negsuc, pos_part, true, false, Option, some, List, [], ◌∷◌,
  Option, arith, ◌>>=◌,
}
use system_design.Threads.Accounts.{accounts}
use system_design.Threads.State.{read, write}
use system_design.Threads.Scheduler.{
  myclear, shift_down, bring_first, fill_hole, remove_current, park_current, advance,
  when_lock_free, when_lock_held, take_lock, when_none_wait, reschedule, dispatch, scheduler,
}
use system_design.Threads.Programs.{
  thread_setup, int_result, fibonacci_iteration, factorial_iteration,
}
use system_design.Threads.Machine.{
  fibonacci_function, factorial_function, bank_function, Signals, created, number, acquired,
  released, balance_changed, caught_tstp, caught_alrm, Machine, enter_scheduler, sighandler,
  thread_yield, stop_at, step, run, segment, bank_segment, fibonacci_round, factorial_round,
  update_balance, unlock,
}
use system_design.Threads.Start.{thread_create, init_threads, start_threading, main}
use system_design.Threads.Lines.{own}
use system_design.Threads.Launch.{amounts, script}
use system_design.Threads.Orders.{paid}
use system_design.Threads.Holding.{inside}
use system_design.Threads.Program.{
  main_is_serial, main_ends, main_prints, main_balances, main_excludes, main_bounds,
}

abbrev none_come : Signals
none_come = record { tstp = false; alrm = false }

abbrev alarm_comes : Signals
alarm_comes = record { tstp = false; alrm = true }

abbrev both_come : Signals
both_come = record { tstp = true; alrm = true }

abbrev arrivals : List Signals
arrivals =
    alarm_comes ∷ none_come ∷ both_come ∷ none_come ∷ alarm_comes ∷ none_come ∷ none_come
    ∷ alarm_comes ∷ none_come ∷ none_come ∷ none_come ∷ none_come ∷ none_come ∷ []

-- A deposit of 100 and a withdrawal of 700.
abbrev ended : Option Machine
ended = main (pos 3) (pos 2) (pos 100) (negsuc 699) arrivals

-- Thread 3 gets the lock first and finds too little; the deposit waits for it.
lines_of_a_run :
    (do m ← ended; some m.printed)
    ≡ some (
        created 0 fibonacci_function
        ∷ created 1 factorial_function
        ∷ created 2 bank_function
        ∷ created 3 bank_function
        ∷ number 0 1
        ∷ caught_alrm
        ∷ number 1 1
        ∷ number 1 2
        ∷ acquired 3
        ∷ caught_tstp
        ∷ number 0 1
        ∷ caught_alrm
        ∷ balance_changed 3 500 500
        ∷ caught_alrm
        ∷ number 0 2
        ∷ released 3
        ∷ acquired 2
        ∷ balance_changed 2 500 600
        ∷ released 2
        ∷ [])
unfolding main start_threading init_threads thread_create enter_scheduler scheduler reschedule
    dispatch run step segment bank_segment fibonacci_round factorial_round fibonacci_iteration
    factorial_iteration int_result update_balance unlock stop_at thread_yield sighandler
    thread_setup read write myclear shift_down bring_first fill_hole remove_current park_current
    advance when_lock_free when_lock_held take_lock when_none_wait
lines_of_a_run = refl

main_ends_example :
    (n : Machine) × (ended ≡ some n)
    × (n.halted ≡ true)
    × (n.sched.rq_size ≡ 0)
    × (n.sched.wq_size ≡ 0)
main_ends_example =
    main_ends (pos 3) (pos 2) (pos 100) (negsuc 699) (omega arith) (omega arith) (omega arith)
      (omega arith) (omega arith) arrivals (omega arith)

main_prints_example :
    (n : Machine) × (ended ≡ some n)
    × (n.halted ≡ true)
    × ((u : ℕ) → own u n.printed ≡ script (pos 3) (pos 2) (pos 100) (negsuc 699) u)
main_prints_example =
    main_prints (pos 3) (pos 2) (pos 100) (negsuc 699) (omega arith) (omega arith) (omega arith)
      (omega arith) (omega arith) arrivals (omega arith)

main_balances_example :
    (n : Machine) × (ended ≡ some n)
    × (accounts (amounts (pos 100) (negsuc 699)) 500 n.printed ≡ some n.balance)
main_balances_example =
    main_balances (pos 3) (pos 2) (pos 100) (negsuc 699) (omega arith) (omega arith) (omega arith)
      (omega arith) (omega arith) arrivals

main_excludes_example :
    (n : Machine) × (ended ≡ some n)
    × ((i u : ℕ)
        → n.sched.ready_queue i ≡ some u
        → inside (n.points u) ≡ true
        → n.sched.lock_owner ≡ some u)
main_excludes_example =
    main_excludes (pos 3) (pos 2) (pos 100) (negsuc 699) (omega arith) (omega arith) (omega arith)
      (omega arith) (omega arith) arrivals

main_bounds_example :
    (n : Machine) × (ended ≡ some n)
    × (n.balance ≤ 500 + pos_part (pos 100) + pos_part (negsuc 699))
main_bounds_example =
    main_bounds (pos 3) (pos 2) (pos 100) (negsuc 699) (omega arith) (omega arith) (omega arith)
      (omega arith) (omega arith) arrivals

main_is_serial_example :
    (n : Machine) × (ended ≡ some n)
    × (n.halted ≡ true)
    × ((paid (pos 100) (negsuc 699) ≡ some n.balance)
        ⊎ (paid (negsuc 699) (pos 100) ≡ some n.balance))
main_is_serial_example =
    main_is_serial (pos 3) (pos 2) (pos 100) (negsuc 699) (omega arith) (omega arith) (omega arith)
      (omega arith) (omega arith) arrivals (omega arith)
