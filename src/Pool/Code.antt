-- ===== src/Pool/Code.antt =====
-- The critical sections of MultiThread/my_pool.c: what each does between taking the mutex and
-- giving it back, by `pthread_mutex_unlock` or `pthread_cond_wait`. `none` is a fault: a read through
-- NULL or through a freed node, a second `free`, or a counter that would become negative.
use system_design.Base.{
  ℕ, ◌+◌, Bool, ◌&&◌, Option, none, some, if◌then◌else◌, ◌==◌, ◌>>=◌, is_none, update,
}
use system_design.Pool.State.{Call, Job, Tpool, Heap, Memory, decrement}

-- `tpool_init` for `n` threads, up to the start of the threads.
unfoldable pub tpool_init : ℕ → Heap → Memory
tpool_init n heap = record {
  pool = record { jc = 0; tc = n; shutdown = 0; head = none; tail = none };
  heap = heap;
}

-- The body of `tpool_add` under the mutex, where the queue is not empty.
abbrev append_job : ℕ → Heap → Tpool → Option Memory
append_job a heap pool = do
  last ← pool.tail
  job ← heap last
  some (record {
    pool = record pool { tail = some a };
    heap = update heap last (some (record job { next = some a }));
  })

-- `tpool_add`; `a` is the address that `malloc` returns.
unfoldable pub tpool_add : ℕ → Call → Memory → Option Memory
tpool_add a c m =
    let heap : Heap = update m.heap a (some (record { next = none; call = c })) in
    elim m.pool.head [
      | some _ ↦ append_job a heap m.pool
      | none ↦ some (record { pool = record m.pool { head = some a; tail = some a }; heap = heap })
    ]

-- How the first section of the loop of `eachthread` ends: asleep on `Acond`, out of the loop and
-- gone, or with the job taken from the queue.
pub data Entry : Type 0 where
  sleep : Entry
  leave : Entry
  take : Option ℕ → Entry

abbrev unlink : Job → Tpool → Tpool
unlink job pool =
    if is_none job.next
    then record pool { head = none; tail = none; jc = pool.jc + 1 }
    else record pool { head = job.next; jc = pool.jc + 1 }

abbrev take_job : Option ℕ → Memory → Option (Memory × Entry)
take_job none m = some (m, take none)
take_job (some a) m = do job ← m.heap a; some (record m { pool = unlink job m.pool }, take (some a))

-- From `pthread_mutex_lock` at the top of the loop; `tc--` belongs to the thread that leaves.
unfoldable pub worker_enter : Memory → Option (Memory × Entry)
worker_enter m =
    if m.pool.shutdown == 0 && is_none m.pool.head
    then some (m, sleep)
    else if m.pool.shutdown == 1
    then (do tc ← decrement m.pool.tc; some (record m { pool = record m.pool { tc = tc } }, leave))
    else take_job m.pool.head m

-- `job1->myfunc(job1->arg)`: what the job calls.
unfoldable pub job_call : Option ℕ → Memory → Option Call
job_call j m = do a ← j; job ← m.heap a; some job.call

abbrev release_job : Option ℕ → Memory → Option Memory
release_job none m = some m
release_job (some a) m = do
  _ ← m.heap a
  jc ← decrement m.pool.jc
  some (record { pool = record m.pool { jc = jc }; heap = update m.heap a none })

-- `con1 && con2` of `eachthread`, and the negated test of `tpool_wait`.
unfoldable pub is_idle : Memory → Bool
is_idle m = m.pool.jc == 0 && is_none m.pool.head

-- The second section of the loop; the answer is whether `Bcond` is signalled.
unfoldable pub worker_finish : Option ℕ → Memory → Option (Memory × Bool)
worker_finish j m = do m' ← release_job j m; some (m', is_idle m')

-- The start of `wait2`, which also broadcasts `Acond`.
unfoldable pub begin_shutdown : Memory → Memory
begin_shutdown m = record m { pool = record m.pool { shutdown = 1 } }

-- The test of the loop in `wait2`.
unfoldable pub all_gone : Memory → Bool
all_gone m = m.pool.tc == 0
