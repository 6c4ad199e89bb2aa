-- ===== src/Pool/Reachable.antt =====
-- The invariant of the pool along a run (MultiThread/my_pool.c).
use system_design.Base.{
  ℕ, zero, suc, ◌<◌, ◌≡◌, ◌≢◌, inl, inr, refl, ap, sym, subst, ◌∙◌, Bool, Option, none, some, List,
  [], ◌∷◌, ◌++◌, arith, tally-pos,
}
use system_design.Pool.State.{Job, Heap, Memory}
use system_design.Pool.Code.{Entry, sleep, leave, take, worker_enter, worker_finish, is_idle}
use system_design.Pool.Chain.{Node, IsQueue, add-Adds}
use system_design.Pool.Sections.{enter-Takes, enter-sleep, enter-leave, finish-Frees}
use system_design.Pool.System.{
  System, ready, finishing, waiting, destroying, entered, finished, Step, enter, finish,
  wake_worker, add, call_wait, retest_wait, wake_wait, call_destroy, retest_destroy, wake_destroy,
  Reach, initial, later, added,
}
use system_design.Pool.Invariant.{Inv, holds, alive, ClientFits, WorkerFits, start-Inv}
use system_design.Pool.Steps.{
  shutdown_cases, without_one, sleep-Inv, leave-Inv, take-Inv, finish-Inv, wake_worker-Inv,
}
use system_design.Pool.ClientSteps.{
  added-Inv, client-Inv, tested_wait-Inv, tested_destroy-Inv, shut_down-Inv,
}

-- A counter that counts a live worker is not zero.
pred-pos : (n : ℕ) → 0 < n → (k : ℕ) × (n ≡ suc k)
pred-pos zero h = elim h [ ]
pred-pos (suc k) h = (k, refl)

some-eq {ℓ} : {A : Type ℓ} {a b : A} → some a ≡ some b → a ≡ b
some-eq e = cc

module _ {n : ℕ} {s : System} {q : List Node} (v : Inv n s q) (i : ℕ) (lt : i < n) where
  -- The first section of a worker at the top of its loop ends in one way, and keeps the invariant.
  pub entered-Inv :
      s.workers i ≡ ready
      → (m : Memory) × (e : Entry) × (worker_enter s.memory ≡ some (m, e))
        × ((r : List Node) × Inv n (entered s i m e) r)
  entered-Inv here = elim (shutdown_cases s.memory s.client v.client) [
    | inl up ↦ opened up q refl
    | inr down ↦ closing down
  ]
    where
      opened :
          s.memory.pool.shutdown ≡ 0
          → (p : List Node) → q ≡ p
          → (m : Memory) × (e : Entry) × (worker_enter s.memory ≡ some (m, e))
            × ((r : List Node) × Inv n (entered s i m e) r)
      opened up [] f = (
        s.memory,
        sleep,
        enter-sleep s.memory up (subst (IsQueue s.memory) f v.queue).chain,
        (q, sleep-Inv v i lt here up f),
      )
      opened up ((a, c) ∷ r) f =
          let k = subst (IsQueue s.memory) f v.queue in
          let (m, e, t) = enter-Takes s.memory a c r up k in
          (m, take (some a), e, (r, take-Inv v i lt a c r m f t up here k.apart.0))

      closing :
          s.memory.pool.shutdown ≡ 1
          → (m : Memory) × (e : Entry) × (worker_enter s.memory ≡ some (m, e))
            × ((r : List Node) × Inv n (entered s i m e) r)
      closing down =
          let live = tally-pos alive n s.workers i lt (ap alive here) in
          let (tc, e) = pred-pos s.memory.pool.tc (omega (arith, v.tc)) in
          (
            without_one s.memory tc,
            leave,
            enter-leave s.memory tc down e,
            (q, leave-Inv v i lt tc here down e),
          )

  pub finished-Inv :
      (j : Option ℕ)
      → s.workers i ≡ finishing j
      → (m : Memory) × (b : Bool) × (worker_finish j s.memory ≡ some (m, b))
        × ((r : List Node) × Inv n (finished s i m b) r)
  finished-Inv none here = absurd (subst (WorkerFits s.memory q) here (v.worker i))
  finished-Inv (some a) here =
      let f = subst (WorkerFits s.memory q) here (v.worker i) in
      let (job, at) = allocated (s.memory.heap a) f.0 in
      let held = tally-pos holds n s.workers i lt (ap holds here) in
      let (jc, e) = pred-pos s.memory.pool.jc (omega (arith, v.jc)) in
      let (m, out, t) = finish-Frees s.memory a jc job q v.queue at f.1 e in
      (m, is_idle m, out, (q, finish-Inv v i lt a m here t))
    where
      allocated : (o : Option Job) → o ≢ none → (job : Job) × (o ≡ some job)
      allocated none h = absurd (h refl)
      allocated (some job) h = (job, refl)

pub Step-Inv :
    {n : ℕ} {s t : System} {q : List Node} → Step n s t → Inv n s q → (r : List Node) × Inv n t r
Step-Inv {n} {s} (enter i m e lt here out) v =
    let (m', e', out', w) = entered-Inv v i lt here in
    subst (λ (p : Memory × Entry). (r : List Node) × Inv n (entered s i p.0 p.1) r)
      (some-eq (sym out' ∙ out)) w
Step-Inv {n} {s} (finish i j m b lt here out) v =
    let (m', b', out', w) = finished-Inv v i lt j here in
    subst (λ (p : Memory × Bool). (r : List Node) × Inv n (finished s i p.0 p.1) r)
      (some-eq (sym out' ∙ out)) w
Step-Inv {q} (wake_worker i lt here) v = (q, wake_worker-Inv v i lt here)
Step-Inv {n} {s} {q} (add a c m here new out) v =
    let (m', out', t) = add-Adds a c s.memory q new v.queue in
    (
      q ++ (a, c) ∷ [],
      subst (λ m. Inv n (added s m c) (q ++ (a, c) ∷ [])) (some-eq (sym out' ∙ out))
          (added-Inv v a c m' here new t),
    )
Step-Inv {s} {q} (call_wait here) v =
    (q, tested_wait-Inv v (subst (ClientFits s.memory) here v.client))
Step-Inv {s} {q} (retest_wait here) v =
    (q, tested_wait-Inv v (subst (ClientFits s.memory) here v.client))
Step-Inv {s} {q} (wake_wait here) v =
    (q, client-Inv v waiting (subst (ClientFits s.memory) here v.client).0)
Step-Inv {q} (call_destroy here) v = (q, shut_down-Inv v)
Step-Inv {s} {q} (retest_destroy here) v =
    (q, tested_destroy-Inv v (subst (ClientFits s.memory) here v.client))
Step-Inv {s} {q} (wake_destroy here) v =
    (q, client-Inv v destroying (subst (ClientFits s.memory) here v.client).0)

pub Reach-Inv : {n : ℕ} {heap : Heap} {s : System} → Reach n heap s → (q : List Node) × Inv n s q
Reach-Inv {n} {heap} initial = ([], start-Inv n heap)
Reach-Inv (later r st) = let (q, v) = Reach-Inv r in Step-Inv st v
