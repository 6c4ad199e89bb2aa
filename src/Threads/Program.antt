-- ===== src/Threads/Program.antt =====
-- The whole program of UserLevelThreadLibrary, from `main` to its end, however the signals come.
use mathlib.Core.List.{append-nil}
use system_design.Base.{
  ℕ, ◌+◌, ◌^◌, ◌<◌, ◌≤◌, ◌≡◌, ap, ap₂, sym, ◌∙◌, inl, inr, ◌⊎◌, ℤ, pos_part, neg_part, true, some,
  List, ◌++◌, length, get_elem?,
}
use system_design.Threads.Accounts.{accounts, ledger-accounts}
use system_design.Threads.State.{Sched}
use system_design.Threads.Spec.{Plan, load}
use system_design.Threads.Progress.{IsDone}
use system_design.Threads.Machine.{Signals, Machine}
use system_design.Threads.Start.{main}
use system_design.Threads.Totals.{occurs-get}
use system_design.Threads.Holding.{inside}
use system_design.Threads.Lines.{Mark, own}
use system_design.Threads.Told.{Told, remains}
use system_design.Threads.Orders.{paid, printed-Serial}
use system_design.Threads.Finish.{Kept, run-Kept, run_ends}
use system_design.Threads.Launch.{amounts, script, Reported, step-Reported, start_threading-Next}

module _ (fib_arg fact_arg bank1_arg bank2_arg : ℤ) (fib_low : pos_part fib_arg ≤ 46)
    (fact_low : pos_part fact_arg ≤ 12) (bank1_low : neg_part bank1_arg < 2 ^ 31)
    (bank2_low : neg_part bank2_arg < 2 ^ 31)
    (bank_low : 500 + pos_part bank1_arg + pos_part bank2_arg < 2 ^ 31)
    (arrivals : List Signals) where
  abbrev most_ever : ℕ
  most_ever = 500 + pos_part bank1_arg + pos_part bank2_arg

  abbrev payments : ℕ → ℤ
  payments = amounts bank1_arg bank2_arg

  abbrev parts : ℕ → List Mark
  parts = script fib_arg fact_arg bank1_arg bank2_arg

  main-Kept :
      (n : Machine) × (main fib_arg fact_arg bank1_arg bank2_arg arrivals ≡ some n)
      × (work : ℕ) × Kept (Reported payments parts) most_ever work n
  unfolding main
  main-Kept =
      let (m, s, first) =
        start_threading-Next fib_arg fact_arg bank1_arg bank2_arg fib_low fact_low bank1_low
          bank2_low in
      let (n, r, last) =
        run-Kept (Reported payments parts) most_ever bank_low
          (step-Reported payments parts most_ever) arrivals m _ first in
      (n, rw s r, _, last)

  main_finishes :
      pos_part fib_arg + pos_part fact_arg + 8 ≤ length arrivals
      → (n : Machine) × (main fib_arg fact_arg bank1_arg bank2_arg arrivals ≡ some n)
        × (n.halted ≡ true)
        × (q : Plan) × (n.sched ≡ load q)
        × (IsDone q × Reported payments parts q n)
  unfolding main
  main_finishes enough =
      let (m, s, first) =
        start_threading-Next fib_arg fact_arg bank1_arg bank2_arg fib_low fact_low bank1_low
          bank2_low in
      let (n, r, halted, q, loaded, done) =
        run_ends (Reported payments parts) most_ever bank_low
          (step-Reported payments parts most_ever) arrivals m _ first enough in
      (n, rw s r, halted, q, loaded, done)

  -- Nothing remains to be printed.
  all_printed :
      (n : Machine) (q : Plan) → IsDone q → Told parts q n → (u : ℕ) → own u n.printed ≡ parts u
  all_printed n q done told u =
      sym (ap (λ l. own u n.printed ++ remains l n u) (ap₂ ◌++◌ done.0 done.1) ∙ append-nil _)
      ∙ told u

  -- With arguments up to 46 and 12 for the computing threads, and amounts that fit an `int` by
  -- themselves and, if paid in, together with the 500, the program ends: after at least as many
  -- steps as the two arguments and 8 together, whatever signals come in, `main` is back, no thread
  -- is ready or waits, and no step has faulted.
  pub main_ends :
      pos_part fib_arg + pos_part fact_arg + 8 ≤ length arrivals
      → (n : Machine) × (main fib_arg fact_arg bank1_arg bank2_arg arrivals ≡ some n)
        × (n.halted ≡ true)
        × (n.sched.rq_size ≡ 0)
        × (n.sched.wq_size ≡ 0)
  main_ends enough =
      let (n, r, halted, q, loaded, (done, _)) = main_finishes enough in
      (
        n,
        r,
        halted,
        ap (λ (s : Sched). s.rq_size) loaded ∙ ap length done.0,
        ap (λ (s : Sched). s.wq_size) loaded ∙ ap length done.1,
      )

  -- With arguments up to 46 and 12 for the computing threads, and amounts that fit an `int` by
  -- themselves and, if paid in, together with the 500, after at least as many steps as the two
  -- arguments and 8 together the program has ended, and each thread has printed exactly its own
  -- lines, in their order, whatever signals came in: thread 0 the numbers FIB(1) to FIB(fib_arg),
  -- thread 1 the factorials of 1 to fact_arg, threads 2 and 3 that they took the lock, changed the
  -- balance and gave the lock back, each if its argument asks for the thread, and no other thread
  -- any line.
  pub main_prints :
      pos_part fib_arg + pos_part fact_arg + 8 ≤ length arrivals
      → (n : Machine) × (main fib_arg fact_arg bank1_arg bank2_arg arrivals ≡ some n)
        × (n.halted ≡ true)
        × ((u : ℕ) → own u n.printed ≡ script fib_arg fact_arg bank1_arg bank2_arg u)
  main_prints enough =
      let (n, r, halted, q, loaded, (done, (account, told))) = main_finishes enough in
      (n, r, halted, all_printed n q done told)

  -- With arguments up to 46 and 12 for the computing threads, and amounts that fit an `int` by
  -- themselves and, if paid in, together with the 500, after any number of steps and whatever
  -- signals came in: the lines of the bank operations account for the balance. Each starts, from
  -- 500 on, at the balance that the line before it leaves, and ends at that plus the argument, or, for
  -- a negative one, less its absolute value if the balance covers it and else unchanged; the last leaves
  -- the balance that is in the bank.
  pub main_balances :
      (n : Machine) × (main fib_arg fact_arg bank1_arg bank2_arg arrivals ≡ some n)
      × (accounts (amounts bank1_arg bank2_arg) 500 n.printed ≡ some n.balance)
  main_balances =
      let (n, r, work, (next, (account, told))) = main-Kept in
      (n, r, ledger-accounts (amounts bank1_arg bank2_arg) 500 n.printed n.balance account.balanced)

  -- With arguments up to 46 and 12 for the computing threads, and amounts that fit an `int` by
  -- themselves and, if paid in, together with the 500, after at least as many steps as the two
  -- arguments and 8 together the program has ended, and the balance is that of the two bank
  -- operations one after the other, in one of the two orders, whatever signals came in.
  pub main_is_serial :
      pos_part fib_arg + pos_part fact_arg + 8 ≤ length arrivals
      → (n : Machine) × (main fib_arg fact_arg bank1_arg bank2_arg arrivals ≡ some n)
        × (n.halted ≡ true)
        × ((paid bank1_arg bank2_arg ≡ some n.balance)
            ⊎ (paid bank2_arg bank1_arg ≡ some n.balance))
  main_is_serial enough =
      let (n, r, halted, q, loaded, (done, (account, told))) = main_finishes enough in
      (
        n,
        r,
        halted,
        printed-Serial fib_arg fact_arg bank1_arg bank2_arg n.printed n.balance
            (all_printed n q done told) account.balanced,
      )

  -- With arguments up to 46 and 12 for the computing threads, and amounts that fit an `int` by
  -- themselves and, if paid in, together with the 500, after any number of steps and whatever
  -- signals came in: a thread in the ready queue that is between the return of `lock` and
  -- `thread_exit` owns the lock, so that there is one at most.
  pub main_excludes :
      (n : Machine) × (main fib_arg fact_arg bank1_arg bank2_arg arrivals ≡ some n)
      × ((i u : ℕ)
          → n.sched.ready_queue i ≡ some u
          → inside (n.points u) ≡ true
          → n.sched.lock_owner ≡ some u)
  main_excludes =
      let (n, r, work, (next, _)) = main-Kept in
      (
        n,
        r,
        λ i u here in_bank.
            let p = next.plan in
            let at : get_elem? p.ready i ≡ some u =
              sym (ap (λ (s : Sched). s.ready_queue i) next.loaded) ∙ here in
            elim next.outcome [
              | inl (halted, done) ↦ absurd (cc (at, ap (λ l. get_elem? l i) done.0))
              | inr inv ↦
                  ap (λ (s : Sched). s.lock_owner) next.loaded
                  ∙ inv.holds.inside_owns u (λ e. cc e) (occurs-get p.ready i u at) in_bank
            ],
      )

  -- With arguments up to 46 and 12 for the computing threads, and amounts that fit an `int` by
  -- themselves and, if paid in, together with the 500, after any number of steps and whatever
  -- signals came in: the balance is at most 500 and the two deposits together.
  pub main_bounds :
      (n : Machine) × (main fib_arg fact_arg bank1_arg bank2_arg arrivals ≡ some n)
      × (n.balance ≤ 500 + pos_part bank1_arg + pos_part bank2_arg)
  main_bounds = let (n, r, work, (next, _)) = main-Kept in (n, r, next.bounded)
