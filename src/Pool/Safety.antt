-- ===== src/Pool/Safety.antt =====
-- What the users of the thread pool may rely on, whatever the interleaving.
use mathlib.Core.List.{append-nil}
use system_design.Base.{
  ℕ, ◌<◌, ◌≡◌, ◌≢◌, ◌⊎◌, inl, inr, refl, ap, sym, subst, ◌∙◌, Bool, Bool-cases, true, false, Option,
  none, some, List, [], ◌∷◌, ◌++◌, arith, tally, tally-pos, tally-witness,
}
use system_design.Pool.State.{Call, Heap, Memory}
use system_design.Pool.Code.{Entry, worker_enter, worker_finish, tpool_add, is_idle}
use system_design.Pool.Chain.{Node, add-Adds}
use system_design.Pool.System.{
  System, Worker, ready, asleep, finishing, gone, outside, wait_asleep, destroy_asleep, destroyed,
  tested_wait, Reach,
}
use system_design.Pool.Invariant.{Inv, holds, alive, calls, ClientFits, WorkerFits}
use system_design.Pool.Reachable.{Reach-Inv, entered-Inv, finished-Inv}

-- Awake and able to go on.
abbrev pub CanRun : Worker → Type 0
CanRun w = (w ≡ ready) ⊎ ((a : ℕ) × (w ≡ finishing (some a)))

worker-CanRun :
    (m : Memory) (q : List Node) (w : Worker)
    → m.pool.shutdown ≡ 0
    → q ≢ []
    → WorkerFits m q w
    → CanRun w
worker-CanRun m q ready up h f = inl refl
worker-CanRun m q asleep up h f = absurd (h f.1)
worker-CanRun m q (finishing none) up h f = absurd f
worker-CanRun m q (finishing (some a)) up h f = inr (a, refl)
worker-CanRun m q gone up h f = absurd (omega arith)

alive-CanRun :
    (m : Memory) (q : List Node) (w : Worker)
    → m.pool.shutdown ≡ 1
    → alive w ≡ true
    → WorkerFits m q w
    → CanRun w
alive-CanRun m q ready down h f = inl refl
alive-CanRun m q asleep down h f = absurd (omega (arith, f.0))
alive-CanRun m q (finishing none) down h f = absurd f
alive-CanRun m q (finishing (some a)) down h f = inr (a, refl)
alive-CanRun m q gone down h f = cc

gone_of_dead : (w : Worker) → alive w ≡ false → w ≡ gone
gone_of_dead ready h = cc
gone_of_dead asleep h = cc
gone_of_dead (finishing j) h = cc
gone_of_dead gone h = refl

holder-CanRun : (w : Worker) → holds w ≡ true → CanRun w
holder-CanRun ready h = cc
holder-CanRun asleep h = cc
holder-CanRun (finishing none) h = cc
holder-CanRun (finishing (some a)) h = inr (a, refl)
holder-CanRun gone h = cc

module _ {n : ℕ} {heap : Heap} {s : System} (r : Reach n heap s) where
  -- Once the pool is destroyed, every worker has left its loop: none touches the freed pool.
  pub destroyed_quiet : s.client ≡ destroyed → (i : ℕ) → i < n → s.workers i ≡ gone
  destroyed_quiet e i lt =
      let (q, v) = Reach-Inv r in
      let f = subst (ClientFits s.memory) e v.client in
      elim (Bool-cases (alive (s.workers i))) [
        | inl live ↦ absurd (omega (arith, tally-pos alive n s.workers i lt live, v.tc, f.1))
        | inr dead ↦ gone_of_dead (s.workers i) dead
      ]

  -- No critical section that a thread can reach faults: no NULL or freed job is read, no job is freed
  -- twice, and neither counter becomes negative. When `tpool_destroy` comes to free the pool, every
  -- worker has left its loop.
  pub sections_total :
      ((i : ℕ)
        → i < n
        → s.workers i ≡ ready
        → (out : Memory × Entry) × (worker_enter s.memory ≡ some out))
      × ((i : ℕ) (j : Option ℕ)
          → i < n
          → s.workers i ≡ finishing j
          → (out : Memory × Bool) × (worker_finish j s.memory ≡ some out))
      × ((a : ℕ) (c : Call)
          → s.memory.heap a ≡ none
          → (m : Memory) × (tpool_add a c s.memory ≡ some m))
      × (s.client ≡ destroyed → (i : ℕ) → i < n → s.workers i ≡ gone)
  sections_total =
      let (q, v) = Reach-Inv r in
      (
        (λ i lt e. let (m, out, p, _) = entered-Inv v i lt e in ((m, out), p)),
        (λ i j lt e. let (m, b, p, _) = finished-Inv v i lt j e in ((m, b), p)),
        (λ a c e. let (m, p, _) = add-Adds a c s.memory q e v.queue in (m, p)),
        destroyed_quiet,
      )

  -- Jobs run in the order in which they were added, none twice: what has run is always the front
  -- of what was added.
  pub ran_in_order : (rest : List Call) × (s.ran ++ rest ≡ s.submitted)
  ran_in_order = let (q, v) = Reach-Inv r in (calls q, v.history)

  -- When `tpool_wait` returns, every job that was added has run, and no worker still holds one.
  pub wait_complete :
      (tested_wait s).client ≡ outside
      → (s.ran ≡ s.submitted) × ((i a : ℕ) → i < n → s.workers i ≢ finishing (some a))
  unfolding tested_wait is_idle
  wait_complete back = let (q, v) = Reach-Inv r in (all_run q v, none_busy q v)
    where
      idle : is_idle s.memory ≡ true
      idle = ground arith

      all_run : (q : List Node) → Inv n s q → s.ran ≡ s.submitted
      all_run [] v = sym (append-nil s.ran) ∙ v.history
      all_run (x ∷ q) v = absurd (ground (arith, v.queue.chain.0, idle))

      none_busy : (q : List Node) → Inv n s q → (i a : ℕ) → i < n → s.workers i ≢ finishing (some a)
      none_busy q v i a lt e =
          let held = tally-pos holds n s.workers i lt (ap holds e) in
          let zero_jc : s.memory.pool.jc ≡ 0 = ground (arith, idle) in omega (arith, v.jc)

  waiting_not_stuck :
      (q : List Node)
      → Inv n s q
      → 0 < n
      → s.client ≡ wait_asleep
      → (i : ℕ) × (i < n) × CanRun (s.workers i)
  unfolding is_idle
  waiting_not_stuck [] v pos e =
      let f = subst (ClientFits s.memory) e v.client in
      let busy : tally holds n s.workers ≢ 0 = ground (arith, v.jc, f.1, v.queue.chain) in
      let (i, lt, h) = tally-witness holds n s.workers busy in
      (i, lt, holder-CanRun (s.workers i) h)
  waiting_not_stuck (x ∷ q) v pos e =
      let f = subst (ClientFits s.memory) e v.client in
      (0, pos, worker-CanRun s.memory (x ∷ q) (s.workers 0) f.0 (λ z. cc z) (v.worker 0))

  destroying_not_stuck :
      (q : List Node)
      → Inv n s q
      → s.client ≡ destroy_asleep
      → (i : ℕ) × (i < n) × CanRun (s.workers i)
  destroying_not_stuck q v e =
      let f = subst (ClientFits s.memory) e v.client in
      let (i, lt, h) = tally-witness alive n s.workers (λ z. f.1 (v.tc ∙ z)) in
      (i, lt, alive-CanRun s.memory q (s.workers i) f.0 h (v.worker i))

  -- No wakeup is lost. With at least one worker, while the client sleeps in `tpool_wait` or in `wait2`, some worker is awake
  -- and able to go on.
  pub waiter_not_stuck :
      0 < n
      → (s.client ≡ wait_asleep) ⊎ (s.client ≡ destroy_asleep)
      → (i : ℕ) × (i < n) × CanRun (s.workers i)
  waiter_not_stuck pos (inl e) = let (q, v) = Reach-Inv r in waiting_not_stuck q v pos e
  waiter_not_stuck pos (inr e) = let (q, v) = Reach-Inv r in destroying_not_stuck q v e
