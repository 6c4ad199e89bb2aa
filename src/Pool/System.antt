-- ===== src/Pool/System.antt =====
-- `n` workers and one client thread over one pool, interleaved in any order. Every access to the
-- pool stands between taking and giving back `mylock`, so a step is one such critical section
-- (`Pool.Code`). A thread blocked in `pthread_cond_wait` is asleep until the condition variable is
-- signalled or it wakes spuriously; then it takes the mutex and tests its condition again.
use system_design.Base.{
  ℕ, ◌<◌, ◌≡◌, Bool, Option, none, some, List, [], ◌∷◌, ◌++◌, if◌then◌else◌, update,
}
use system_design.Pool.State.{Call, Heap, Memory}
use system_design.Pool.Code.{
  Entry, sleep, leave, take, tpool_init, tpool_add, worker_enter, job_call, worker_finish, is_idle,
  begin_shutdown, all_gone,
}

-- Where a worker stands in `eachthread`: about to lock at the top of the loop, in the wait on
-- `Acond`, between the two sections with `job1`, or past the loop.
pub data Worker : Type 0 where
  ready : Worker
  asleep : Worker
  finishing : Option ℕ → Worker
  gone : Worker

-- Where the client stands: outside the pool's functions, about to test in `tpool_wait`, asleep there
-- on `Bcond`, about to test in `wait2`, asleep there on `Ccond`, or behind `tpool_destroy`.
pub data Client : Type 0 where
  outside waiting wait_asleep destroying destroy_asleep destroyed : Client

-- `submitted` and `ran` are the calls handed to `tpool_add` and those made by workers, in order.
pub record System : Type 0 where
  pub memory : Memory
  pub workers : ℕ → Worker
  pub client : Client
  pub submitted : List Call
  pub ran : List Call

-- `pthread_cond_broadcast(&Acond)`
abbrev pub wake : Worker → Worker
wake asleep = ready
wake w = w

-- `pthread_cond_signal(&Bcond)` and `pthread_cond_signal(&Ccond)`, with one client.
abbrev pub signal_b : Client → Client
signal_b wait_asleep = waiting
signal_b c = c

abbrev pub signal_c : Client → Client
signal_c destroy_asleep = destroying
signal_c c = c

abbrev pub made : Option Call → List Call
made none = []
made (some c) = c ∷ []

-- Worker `i` after the first section, entered in `s`.
unfoldable pub entered : System → ℕ → Memory → Entry → System
entered s i m sleep = record s { memory = m; workers = update s.workers i asleep }
entered s i m leave = record s {
  memory = m;
  workers = update s.workers i gone;
  client = signal_c s.client;
}
entered s i m (take j) = record s {
  memory = m;
  workers = update s.workers i (finishing j);
  ran = s.ran ++ made (job_call j m);
}

unfoldable pub finished : System → ℕ → Memory → Bool → System
finished s i m signal = record s {
  memory = m;
  workers = update s.workers i ready;
  client = (if signal then signal_b s.client else s.client);
}

unfoldable pub added : System → Memory → Call → System
added s m c = record s {
  memory = m;
  workers = λ i. wake (s.workers i);
  submitted = s.submitted ++ c ∷ [];
}

-- The loop of `tpool_wait`: return or sleep.
unfoldable pub tested_wait : System → System
tested_wait s = record s { client = (if is_idle s.memory then outside else wait_asleep) }

unfoldable pub shut_down : System → System
shut_down s = record s {
  memory = begin_shutdown s.memory;
  workers = λ i. wake (s.workers i);
  client = destroying;
}

-- The loop of `wait2`. After it `tpool_destroy` frees the pool; the client is `destroyed` from there
-- on.
unfoldable pub tested_destroy : System → System
tested_destroy s = record s { client = (if all_gone s.memory then destroyed else destroy_asleep) }

-- One step of one thread.
pub data Step (n : ℕ) (s : System) : System → Type 0 where
  enter :
      (i : ℕ) (m : Memory) (e : Entry)
      → i < n
      → s.workers i ≡ ready
      → worker_enter s.memory ≡ some (m, e)
      → Step n s (entered s i m e)
  finish :
      (i : ℕ) (j : Option ℕ) (m : Memory) (signal : Bool)
      → i < n
      → s.workers i ≡ finishing j
      → worker_finish j s.memory ≡ some (m, signal)
      → Step n s (finished s i m signal)
  wake_worker :
      (i : ℕ)
      → i < n
      → s.workers i ≡ asleep
      → Step n s (record s { workers = update s.workers i ready })
  -- `malloc` returns memory that is not in use
  add :
      (a : ℕ) (c : Call) (m : Memory)
      → s.client ≡ outside
      → s.memory.heap a ≡ none
      → tpool_add a c s.memory ≡ some m
      → Step n s (added s m c)
  call_wait : s.client ≡ outside → Step n s (tested_wait s)
  retest_wait : s.client ≡ waiting → Step n s (tested_wait s)
  wake_wait : s.client ≡ wait_asleep → Step n s (record s { client = waiting })
  call_destroy : s.client ≡ outside → Step n s (shut_down s)
  retest_destroy : s.client ≡ destroying → Step n s (tested_destroy s)
  wake_destroy : s.client ≡ destroy_asleep → Step n s (record s { client = destroying })

-- After `tpool_init(n)`; threads from `n` on do not exist.
unfoldable pub start : ℕ → Heap → System
unfolding tpool_init
start n heap = record {
  memory = tpool_init n heap;
  workers = λ _. ready;
  client = outside;
  submitted = [];
  ran = [];
}

pub data Reach (n : ℕ) (heap : Heap) : System → Type 0 where
  initial : Reach n heap (start n heap)
  later : {s t : System} → Reach n heap s → Step n s t → Reach n heap t
