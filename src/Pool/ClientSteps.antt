-- ===== src/Pool/ClientSteps.antt =====
-- The steps of the client and the invariant (MultiThread/my_pool.c).
use mathlib.Core.List.{append_assoc, map-append}
use system_design.Base.{
  ℕ, ◌≡◌, refl, ap, sym, subst, ◌∙◌, Bool, true, false, none, some, List, [], ◌∷◌, ◌++◌, arith,
  if◌then◌else◌, tally-cong,
}
use system_design.Pool.State.{Call, Memory}
use system_design.Pool.Code.{is_idle, all_gone, begin_shutdown}
use system_design.Pool.Chain.{Node, Adds, Avoids-snoc}
use system_design.Pool.System.{
  System, Worker, ready, asleep, finishing, gone, Client, outside, wait_asleep, added, tested_wait,
  shut_down, tested_destroy, wake,
}
use system_design.Pool.Invariant.{Inv, holds, alive, calls, ClientFits, WorkerFits}

holds-wake : (w : Worker) → holds w ≡ holds (wake w)
holds-wake ready = refl
holds-wake asleep = refl
holds-wake (finishing j) = refl
holds-wake gone = refl

alive-wake : (w : Worker) → alive w ≡ alive (wake w)
alive-wake ready = refl
alive-wake asleep = refl
alive-wake (finishing j) = refl
alive-wake gone = refl

finishing_of_wake : (w : Worker) (a : ℕ) → wake w ≡ finishing (some a) → w ≡ finishing (some a)
finishing_of_wake ready a e = e
finishing_of_wake asleep a e = cc
finishing_of_wake (finishing j) a e = e
finishing_of_wake gone a e = e

module _ {n : ℕ} {s : System} {q : List Node} (v : Inv n s q) where
  woken-single :
      (i j a : ℕ)
      → wake (s.workers i) ≡ finishing (some a)
      → wake (s.workers j) ≡ finishing (some a)
      → i ≡ j
  woken-single i j a e f =
      v.single i j a (finishing_of_wake (s.workers i) a e) (finishing_of_wake (s.workers j) a f)

  added-worker :
      (a : ℕ) (c : Call) (m : Memory)
      → s.memory.heap a ≡ none
      → Adds a c q s.memory m
      → (w : Worker) → WorkerFits s.memory q w
      → WorkerFits m (q ++ (a, c) ∷ []) (wake w)
  added-worker a c m new t ready f = tt
  added-worker a c m new t asleep f = tt
  added-worker a c m new t (finishing none) f = f
  added-worker a c m new t (finishing (some b)) f =
      (t.keeps.allocated b f.0, Avoids-snoc b q (a, c) f.1 (λ e. f.0 (ap s.memory.heap e ∙ new)))
  added-worker a c m new t gone f = t.keeps.shutdown ∙ f

  pub added-Inv :
      (a : ℕ) (c : Call) (m : Memory)
      → s.client ≡ outside
      → s.memory.heap a ≡ none
      → Adds a c q s.memory m
      → Inv n (added s m c) (q ++ (a, c) ∷ [])
  unfolding added
  added-Inv a c m here new t = record {
    queue = t.queue;
    history =
        rw (map-append)
          (sym (append_assoc s.ran (calls q) (c ∷ [])) ∙ ap (λ l. l ++ c ∷ []) v.history);
    jc = t.jc ∙ v.jc ∙ tally-cong holds n s.workers _ (λ i. holds-wake (s.workers i));
    tc = t.keeps.tc ∙ v.tc ∙ tally-cong alive n s.workers _ (λ i. alive-wake (s.workers i));
    client = rw here (t.keeps.shutdown ∙ subst (ClientFits s.memory) here v.client);
    worker = λ i. added-worker a c m new t (s.workers i) (v.worker i);
    single = woken-single;
  }

  -- A step of the client alone.
  pub client-Inv : (d : Client) → ClientFits s.memory d → Inv n (record s { client = d }) q
  client-Inv d f = record {
    queue = v.queue;
    history = v.history;
    jc = v.jc;
    tc = v.tc;
    client = f;
    worker = v.worker;
    single = v.single;
  }

  pub tested_wait-Inv : s.memory.pool.shutdown ≡ 0 → Inv n (tested_wait s) q
  unfolding tested_wait
  tested_wait-Inv up = client-Inv _ (tested (is_idle s.memory) refl)
    where
      tested :
          (b : Bool)
          → is_idle s.memory ≡ b
          → ClientFits s.memory (if b then outside else wait_asleep)
      tested true e = up
      tested false e = (up, e)

  pub tested_destroy-Inv : s.memory.pool.shutdown ≡ 1 → Inv n (tested_destroy s) q
  unfolding tested_destroy all_gone
  tested_destroy-Inv down = client-Inv _ (ground arith)

  pub shut_down-Inv : Inv n (shut_down s) q
  unfolding shut_down begin_shutdown
  shut_down-Inv = record {
    queue = record { chain = v.queue.chain; end = v.queue.end; apart = v.queue.apart };
    history = v.history;
    jc = v.jc ∙ tally-cong holds n s.workers _ (λ i. holds-wake (s.workers i));
    tc = v.tc ∙ tally-cong alive n s.workers _ (λ i. alive-wake (s.workers i));
    client = refl;
    worker = λ i. woken (s.workers i) (v.worker i);
    single = woken-single;
  }
    where
      woken :
          (w : Worker) → WorkerFits s.memory q w → WorkerFits (begin_shutdown s.memory) q (wake w)
      woken ready f = tt
      woken asleep f = tt
      woken (finishing none) f = f
      woken (finishing (some a)) f = f
      woken gone f = refl
