-- ===== src/Pool/Script.antt =====
-- A program that uses the pool: MultiThread/testcases/bench/main.c and MultiThread/testcases/sample/main.c
-- add their jobs in a loop, wait for them, and destroy the pool.
use mathlib.Core.List.{append-nil}
use system_design.Base.{
  ℕ, ◌+◌, ◌*◌, ◌≡◌, refl, sym, Option, none, some, List, [], ◌∷◌, ◌++◌, map, upto,
}
use system_design.Pool.State.{Call, Heap}
use system_design.Pool.Code.{sleep, leave, take}
use system_design.Pool.System.{
  System, entered, finished, added, tested_wait, shut_down, tested_destroy, Step, enter, finish,
  wake_worker, add, call_wait, retest_wait, wake_wait, call_destroy, retest_destroy, wake_destroy,
  start, Reach, initial, later,
}

-- The calls by which the client enters the pool.
pub data Action : Type 0 where
  add_job : Call → Action
  wait_jobs destroy_pool : Action

-- The call that a step begins, if any.
unfoldable pub label : {n : ℕ} {s t : System} → Step n s t → Option Action
label (enter i m e lt w run) = none
label (finish i j m signal lt w run) = none
label (wake_worker i lt w) = none
label (add a c m out free run) = some (add_job c)
label (call_wait out) = some wait_jobs
label (retest_wait w) = none
label (wake_wait w) = none
label (call_destroy out) = some destroy_pool
label (retest_destroy w) = none
label (wake_destroy w) = none

-- Where `main` stands: jobs left to add, then `tpool_wait`; `tpool_destroy`; behind it.
pub data Phase : Type 0 where
  todo : List Call → Phase
  leaving over : Phase

-- The runs of `main` with some jobs on a pool of `n` workers, in every interleaving.
pub data Program (n : ℕ) (heap : Heap) (jobs : List Call) : Phase → System → Type 0 where
  begin : Program n heap jobs (todo jobs) (start n heap)
  between :
      {ph : Phase} {s t : System}
      → Program n heap jobs ph s
      → (st : Step n s t) → label st ≡ none
      → Program n heap jobs ph t
  adds :
      {c : Call} {cs : List Call} {s t : System}
      → Program n heap jobs (todo (c ∷ cs)) s
      → (st : Step n s t) → label st ≡ some (add_job c)
      → Program n heap jobs (todo cs) t
  waits :
      {s t : System}
      → Program n heap jobs (todo []) s
      → (st : Step n s t) → label st ≡ some wait_jobs
      → Program n heap jobs leaving t
  destroys :
      {s t : System}
      → Program n heap jobs leaving s
      → (st : Step n s t) → label st ≡ some destroy_pool
      → Program n heap jobs over t

-- The jobs of the two programs, for the addresses of the functions and of the array `arg`.
abbrev pub sample_jobs : ℕ → ℕ → ℕ → List Call
sample_jobs func0 func1 arg =
    record { myfunc = func0; arg = arg }
    ∷ record { myfunc = func1; arg = arg + 4 }
    ∷ record { myfunc = func0; arg = arg + 8 }
    ∷ []

abbrev pub bench_jobs : ℕ → ℕ → List Call
bench_jobs collatz arg = map (λ i. record { myfunc = collatz; arg = arg + 8 * i }) (upto 0x800000 0)

pub Program-Reach :
    {n : ℕ} {heap : Heap} {jobs : List Call} {ph : Phase} {s : System}
    → Program n heap jobs ph s
    → Reach n heap s
Program-Reach begin = initial
Program-Reach (between r st e) = later (Program-Reach r) st
Program-Reach (adds r st e) = later (Program-Reach r) st
Program-Reach (waits r st e) = later (Program-Reach r) st
Program-Reach (destroys r st e) = later (Program-Reach r) st

-- What a call adds.
abbrev pub new_calls : Option Action → List Call
new_calls (some (add_job c)) = c ∷ []
new_calls _ = []

pub Step-submitted :
    {n : ℕ} {s t : System} (st : Step n s t) → t.submitted ≡ s.submitted ++ new_calls (label st)
unfolding label added entered finished tested_wait shut_down tested_destroy
Step-submitted {s = s} (enter i m sleep lt w run) = sym (append-nil s.submitted)
Step-submitted {s = s} (enter i m leave lt w run) = sym (append-nil s.submitted)
Step-submitted {s = s} (enter i m (take j) lt w run) = sym (append-nil s.submitted)
Step-submitted {s = s} (finish i j m signal lt w run) = sym (append-nil s.submitted)
Step-submitted {s = s} (wake_worker i lt w) = sym (append-nil s.submitted)
Step-submitted (add a c m out free run) = refl
Step-submitted {s = s} (call_wait out) = sym (append-nil s.submitted)
Step-submitted {s = s} (retest_wait w) = sym (append-nil s.submitted)
Step-submitted {s = s} (wake_wait w) = sym (append-nil s.submitted)
Step-submitted {s = s} (call_destroy out) = sym (append-nil s.submitted)
Step-submitted {s = s} (retest_destroy w) = sym (append-nil s.submitted)
Step-submitted {s = s} (wake_destroy w) = sym (append-nil s.submitted)

pub Step-ran : {n : ℕ} {s t : System} → Step n s t → (more : List Call) × (t.ran ≡ s.ran ++ more)
unfolding added entered finished tested_wait shut_down tested_destroy
Step-ran {s = s} (enter i m sleep lt w run) = ([], sym (append-nil s.ran))
Step-ran {s = s} (enter i m leave lt w run) = ([], sym (append-nil s.ran))
Step-ran (enter i m (take j) lt w run) = (_, refl)
Step-ran {s = s} (finish i j m signal lt w run) = ([], sym (append-nil s.ran))
Step-ran {s = s} (wake_worker i lt w) = ([], sym (append-nil s.ran))
Step-ran {s = s} (add a c m out free run) = ([], sym (append-nil s.ran))
Step-ran {s = s} (call_wait out) = ([], sym (append-nil s.ran))
Step-ran {s = s} (retest_wait w) = ([], sym (append-nil s.ran))
Step-ran {s = s} (wake_wait w) = ([], sym (append-nil s.ran))
Step-ran {s = s} (call_destroy out) = ([], sym (append-nil s.ran))
Step-ran {s = s} (retest_destroy w) = ([], sym (append-nil s.ran))
Step-ran {s = s} (wake_destroy w) = ([], sym (append-nil s.ran))
