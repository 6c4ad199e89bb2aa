-- ===== src/Pool/State.antt =====
-- The data of the thread pool (MultiThread/my_pool.h): jobs are nodes of a heap, linked by their
-- addresses; `none` is NULL. Mutex and condition variables are in `Pool.System`.
use system_design.Base.{ℕ, zero, suc, Option, none, some}

-- The function and the argument of a job, two pointers that the pool only passes on.
pub record Call : Type 0 where
  pub myfunc : ℕ
  pub arg : ℕ

-- `struct job`
pub record Job : Type 0 where
  pub next : Option ℕ
  pub call : Call

-- `struct tpool`
pub record Tpool : Type 0 where
  pub jc : ℕ
  pub tc : ℕ
  pub shutdown : ℕ
  pub head : Option ℕ
  pub tail : Option ℕ

abbrev pub Heap : Type 0
Heap = ℕ → Option Job

-- The pool and the nodes that `malloc` has handed out and `free` has not taken back.
pub record Memory : Type 0 where
  pub pool : Tpool
  pub heap : Heap

-- `x--` on a counter; `none` where the source would make it negative.
abbrev pub decrement : ℕ → Option ℕ
decrement zero = none
decrement (suc n) = some n
