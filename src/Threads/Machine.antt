-- ===== src/Threads/Machine.antt =====
-- All threads together (UserLevelThreadLibrary/threads.c, threadtools.h, and `sighandler` of
-- scheduler.c): what a thread does between two returns of `sigsetjmp`, and what comes of it.
use system_design.Base.{
  ℕ, ◌+◌, ◌-◌, ℤ, pos, pos_part, neg_part, ◌==ℤ◌, Bool, true, false, ◌||◌, Option, none, some, List,
  [], ◌∷◌, ◌++◌, if◌then◌else◌, ltb, leb, ◌==◌, ◌>>=◌, update,
}
use system_design.Threads.State.{
  Sched, Jump, yielded, locking, exited, Target, return_to_main, resume, read,
}
use system_design.Threads.Scheduler.{scheduler}
use system_design.Threads.Programs.{Tcb, int_result, fibonacci_iteration, factorial_iteration}

pub data Function : Type 0 where
  fibonacci_function factorial_function bank_function : Function

-- Where a thread goes on when it is resumed, its `environment`: behind the `sigsetjmp` of
-- `thread_setup`, of `thread_yield` in a loop, of `lock`, or of the two calls of `thread_yield` in
-- `bank_operation`.
pub data Point : Type 0 where
  set_up looped locked updating releasing : Point

pub data Line : Type 0 where
  created : ℕ → Function → Line
  number : ℕ → ℕ → Line
  acquired released : ℕ → Line
  balance_changed : ℕ → ℕ → ℕ → Line
  caught_tstp caught_alrm : Line

-- How a thread stops: it calls `thread_yield`, `lock` or `thread_exit`.
pub data Stop : Type 0 where
  yields : Point → Stop
  locks exits : Stop

-- The control block, the bank and the lines printed when a thread stops.
pub record Segment : Type 0 where
  pub tcb : Tcb
  pub balance : ℕ
  pub owner : Option ℕ
  pub lines : List Line
  pub stop : Stop

-- One round of the loop of `fibonacci`, of `factorial`.
unfoldable pub fibonacci_round : Tcb → ℕ → Option ℕ → Option Segment
fibonacci_round t b o = do
  t' ← fibonacci_iteration t
  some (record {
    tcb = t';
    balance = b;
    owner = o;
    lines = number t'.id t'.y ∷ [];
    stop = (if pos t'.i ==ℤ t'.arg then exits else yields looped);
  })

unfoldable pub factorial_round : Tcb → ℕ → Option ℕ → Option Segment
factorial_round t b o = do
  t' ← factorial_iteration t
  some (record {
    tcb = t';
    balance = b;
    owner = o;
    lines = number t'.id t'.z ∷ [];
    stop = (if pos t'.i2 ==ℤ t'.arg then exits else yields looped);
  })

-- Step 2 of `bank_operation`; `abs` of the least `int` is no `int`.
unfoldable pub update_balance : ℤ → ℕ → Option ℕ
update_balance arg b =
    if ltb 0 (pos_part arg)
    then int_result (b + pos_part arg)
    else (do amount ← int_result (neg_part arg); if leb amount b then some (b - amount) else some b)

-- `unlock`
unfoldable pub unlock : ℕ → Option ℕ → Option ℕ
unlock id none = none
unlock id (some u) = if id == u then none else some u

unfoldable pub bank_segment : Point → Tcb → ℕ → Option ℕ → Option Segment
bank_segment set_up t b o =
    some (record { tcb = t; balance = b; owner = o; lines = []; stop = locks })
bank_segment locked t b o =
    some (record {
      tcb = t;
      balance = b;
      owner = o;
      lines = acquired t.id ∷ [];
      stop = yields updating;
    })
bank_segment updating t b o = do
  b' ← update_balance t.arg b
  some (record {
    tcb = t;
    balance = b';
    owner = o;
    lines = balance_changed t.id b b' ∷ [];
    stop = yields releasing;
  })
bank_segment releasing t b o = some (record {
  tcb = t;
  balance = b;
  owner = unlock t.id o;
  lines = released t.id ∷ [];
  stop = exits;
})
bank_segment looped t b o = none

-- `none` also for a point that the function does not have.
unfoldable pub segment : Function → Point → Tcb → ℕ → Option ℕ → Option Segment
segment fibonacci_function set_up t b o = fibonacci_round (record t { i = 1 }) b o
segment fibonacci_function looped t b o = fibonacci_round (record t { i = t.i + 1 }) b o
segment factorial_function set_up t b o = factorial_round (record t { z = 1; i2 = 1 }) b o
segment factorial_function looped t b o = factorial_round (record t { i2 = t.i2 + 1 }) b o
segment bank_function at t b o = bank_segment at t b o
segment _ _ t b o = none

-- The signals that are pending; both are blocked but within `thread_yield`.
pub record Signals : Type 0 where
  pub tstp : Bool
  pub alrm : Bool

pub record Machine : Type 0 where
  pub sched : Sched
  pub functions : ℕ → Function
  pub points : ℕ → Point
  pub tcbs : ℕ → Tcb
  pub balance : ℕ
  pub pending : Signals
  pub printed : List Line
  pub halted : Bool

abbrev pub returns : Target → Bool
returns return_to_main = true
returns (resume id) = false

-- `siglongjmp(sched_buf, see)`, down to the jump into the next thread or the end of `main`.
unfoldable pub enter_scheduler : Jump → Machine → Option Machine
enter_scheduler see m = do
  (s, target) ← scheduler see m.sched
  some (record m { sched = s; halted = returns target })

-- `sighandler`
unfoldable pub sighandler : Line → Machine → Machine
sighandler caught_tstp m = record m {
  pending = record m.pending { tstp = false };
  printed = m.printed ++ caught_tstp ∷ [];
}
sighandler line m = record m {
  pending = record m.pending { alrm = false };
  printed = m.printed ++ line ∷ [];
}

-- `thread_yield`, after its `sigsetjmp`: with both signals pending SIGTSTP is unblocked.
unfoldable pub thread_yield : Machine → Option Machine
unfolding sighandler
thread_yield m =
    if m.pending.tstp
    then enter_scheduler yielded (sighandler caught_tstp m)
    else if m.pending.alrm
    then enter_scheduler yielded (sighandler caught_alrm m)
    else some m

unfoldable pub stop_at : ℕ → Stop → Machine → Option Machine
stop_at id (yields at) m = thread_yield (record m { points = update m.points id at })
stop_at id locks m = enter_scheduler locking (record m { points = update m.points id locked })
stop_at id exits m = enter_scheduler exited m

-- The machine when thread `id` has run; meanwhile the signals of `arrived` came in.
abbrev pub after : ℕ → Segment → Signals → Machine → Machine
after id seg arrived m = record m {
  sched = record m.sched { lock_owner = seg.owner };
  tcbs = update m.tcbs id seg.tcb;
  balance = seg.balance;
  printed = m.printed ++ seg.lines;
  pending = record { tstp = m.pending.tstp || arrived.tstp; alrm = m.pending.alrm || arrived.alrm };
}

-- RUNNING goes on from its point to where it stops.
unfoldable pub step : Signals → Machine → Option Machine
step arrived m = do
  current ← read m.sched.ready_queue m.sched.rq_current
  id ← current
  seg ← segment (m.functions id) (m.points id) (m.tcbs id) m.balance m.sched.lock_owner
  stop_at id seg.stop (after id seg arrived m)

-- One step for each member of the list, until `main` is back.
unfoldable pub run : List Signals → Machine → Option Machine
run [] m = some m
run (a ∷ arrivals) m = elim m.halted [ true ↦ some m | false ↦ do m' ← step a m; run arrivals m' ]
