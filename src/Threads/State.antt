-- ===== src/Threads/State.antt =====
-- The scheduler's data (UserLevelThreadLibrary/threadtools.h, bank.h): two arrays of pointers to
-- thread control blocks, their sizes, the running index and the owner of the bank's lock.
-- A pointer is the id of the thread it points to, `none` for NULL: no two threads share an id.
use system_design.Base.{ℕ, zero, suc, Option, none, some, ltb, ◌>>◌, guard, update}

-- THREAD_MAX
abbrev pub thread_max : ℕ
thread_max = 16

abbrev pub Slots : Type 0
Slots = ℕ → Option ℕ

-- `lock_owner` is `none` for the -1 of the source.
pub record Sched : Type 0 where
  pub ready_queue : Slots
  pub waiting_queue : Slots
  pub rq_size : ℕ
  pub rq_current : ℕ
  pub wq_size : ℕ
  pub lock_owner : Option ℕ

-- The second return of `sigsetjmp(sched_buf, 1)`: 0 is the call by `start_threading`, 1 is
-- `sighandler`, 2 is `lock` and 3 is `thread_exit`.
pub data Jump : Type 0 where
  called yielded locking exited : Jump

-- Where control goes: back to `main`, or into the thread with this id.
pub data Target : Type 0 where
  return_to_main : Target
  resume : ℕ → Target

-- An access outside the THREAD_MAX slots of an array is a fault.
unfoldable pub read : Slots → ℕ → Option (Option ℕ)
read slots i = do guard (ltb i thread_max); some (slots i)

unfoldable pub write : Slots → ℕ → Option ℕ → Option Slots
write slots i p = do guard (ltb i thread_max); some (update slots i p)

-- The index `size - 1`; at size 0 the source goes on to use the index -1.
abbrev pub last_index : ℕ → Option ℕ
last_index zero = none
last_index (suc n) = some n
