-- ===== src/Threads/Start.antt =====
-- UserLevelThreadLibrary/main.c: the bank, the threads and the first call of `scheduler`.
use system_design.Base.{
  ℕ, ◌+◌, ℤ, pos, pos_part, neg_part, Bool, false, Option, none, some, List, [], ◌∷◌, ◌++◌,
  if◌then◌else◌, ltb, ◌>>=◌, update,
}
use system_design.Threads.State.{called, write}
use system_design.Threads.Programs.{thread_setup}
use system_design.Threads.Machine.{
  Function, fibonacci_function, factorial_function, bank_function, set_up, created, Machine,
  enter_scheduler, Signals, run,
}

-- The variables before `main`, and `init_bank`.
abbrev pub blank : Machine
blank = record {
  sched = record {
    ready_queue = λ _. none;
    waiting_queue = λ _. none;
    rq_size = 0;
    rq_current = 0;
    wq_size = 0;
    lock_owner = none;
  };
  functions = λ _. bank_function;
  points = λ _. set_up;
  tcbs = λ id. thread_setup id (pos 0);
  balance = 500;
  pending = record { tstp = false; alrm = false };
  printed = [];
  halted = false;
}

-- `thread_create` and the `thread_setup` in the function that it calls.
unfoldable pub thread_create : Function → ℕ → ℤ → Machine → Option Machine
thread_create f id arg m = do
  ready ← write m.sched.ready_queue m.sched.rq_size (some id)
  some (record m {
    sched = record m.sched { ready_queue = ready; rq_size = m.sched.rq_size + 1 };
    functions = update m.functions id f;
    points = update m.points id set_up;
    tcbs = update m.tcbs id (thread_setup id arg);
    printed = m.printed ++ created id f ∷ [];
  })

abbrev pub create_if : Bool → Function → ℕ → ℤ → Machine → Option Machine
create_if test f id arg m = if test then thread_create f id arg m else some m

unfoldable pub init_threads : ℤ → ℤ → ℤ → ℤ → Machine → Option Machine
init_threads fib_arg fact_arg bank1_arg bank2_arg m = do
  m₁ ← create_if (ltb 0 (pos_part fib_arg)) fibonacci_function 0 fib_arg m
  m₂ ← create_if (ltb 0 (pos_part fact_arg)) factorial_function 1 fact_arg m₁
  m₃ ← create_if (ltb 0 (pos_part bank1_arg + neg_part bank1_arg)) bank_function 2 bank1_arg m₂
  create_if (ltb 0 (pos_part bank2_arg + neg_part bank2_arg)) bank_function 3 bank2_arg m₃

-- `main`, from `init_bank` to the jump into the first thread.
unfoldable pub start_threading : ℤ → ℤ → ℤ → ℤ → Option Machine
start_threading fib_arg fact_arg bank1_arg bank2_arg = do
  m ← init_threads fib_arg fact_arg bank1_arg bank2_arg blank
  enter_scheduler called m

-- All of `main` behind its reading of the arguments.
unfoldable pub main : ℤ → ℤ → ℤ → ℤ → List Signals → Option Machine
main fib_arg fact_arg bank1_arg bank2_arg arrivals = do
  m ← start_threading fib_arg fact_arg bank1_arg bank2_arg
  run arrivals m
