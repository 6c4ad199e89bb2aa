-- ===== src/Pool/Steps.antt =====
-- The steps of the workers and the invariant (MultiThread/my_pool.c).
use mathlib.Core.List.{append_assoc}
use system_design.Base.{
  ℕ, suc, ◌+◌, ◌<◌, ◌≡◌, ◌≢◌, ◌⊎◌, inl, inr, refl, ap, sym, subst, ◌∙◌, Bool-cases, false, none,
  some, List, [], ◌∷◌, ◌++◌, arith, if◌then◌else◌, update, bit, tally, tally-update, update-forall,
}
use system_design.Pool.State.{Call, Memory}
use system_design.Pool.Code.{sleep, leave, take, is_idle}
use system_design.Pool.Chain.{Node, Avoids}
use system_design.Pool.Sections.{Takes, Frees}
use system_design.Pool.System.{
  System, Worker, ready, asleep, finishing, gone, Client, outside, waiting, wait_asleep, destroying,
  destroy_asleep, destroyed, signal_c, signal_b, entered, finished,
}
use system_design.Pool.Invariant.{Inv, holds, alive, calls, ClientFits, WorkerFits}

pub shutdown_cases :
    (m : Memory) (c : Client) → ClientFits m c → (m.pool.shutdown ≡ 0) ⊎ (m.pool.shutdown ≡ 1)
shutdown_cases m outside f = inl f
shutdown_cases m waiting f = inl f
shutdown_cases m wait_asleep f = inl f.0
shutdown_cases m destroying f = inr f
shutdown_cases m destroy_asleep f = inr f.0
shutdown_cases m destroyed f = inr f.0

-- A worker that an operation on the queue does not concern.
fits_mono :
    (m n : Memory) (q r : List Node) (w : Worker)
    → n.pool.shutdown ≡ m.pool.shutdown
    → ((b : ℕ)
        → w ≡ finishing (some b)
        → m.heap b ≢ none
        → Avoids b q
        → (n.heap b ≢ none) × Avoids b r)
    → (q ≡ [] → r ≡ [])
    → WorkerFits m q w
    → WorkerFits n r w
fits_mono m n q r ready e k h f = tt
fits_mono m n q r asleep e k h f = (e ∙ f.0, h f.1)
fits_mono m n q r (finishing none) e k h f = f
fits_mono m n q r (finishing (some a)) e k h f = k a refl f.0 f.1
fits_mono m n q r gone e k h f = e ∙ f

-- The pool with one worker less.
abbrev pub without_one : Memory → ℕ → Memory
without_one m tc = record m { pool = record m.pool { tc = tc } }

module _ {n : ℕ} {s : System} {q : List Node} (v : Inv n s q) (i : ℕ) (lt : i < n) where
  -- Replacing worker `i` moves the two counts.
  counts :
      (w : Worker)
      → (tally holds n (update s.workers i w) + bit (holds (s.workers i))
          ≡ bit (holds w) + s.memory.pool.jc)
        × (tally alive n (update s.workers i w) + bit (alive (s.workers i))
            ≡ bit (alive w) + s.memory.pool.tc)
  counts w = (
    omega (arith, tally-update holds n s.workers i w lt, v.jc),
    omega (arith, tally-update alive n s.workers i w lt, v.tc),
  )

  -- A worker that holds no job joins no other.
  single-none :
      (w : Worker)
      → holds w ≡ false
      → (j k a : ℕ) → update s.workers i w j ≡ finishing (some a)
      → update s.workers i w k ≡ finishing (some a)
      → j ≡ k
  single-none w h j k a e f = ground (arith, v.single j k a)

  pub sleep-Inv :
      s.workers i ≡ ready
      → s.memory.pool.shutdown ≡ 0
      → q ≡ []
      → Inv n (entered s i s.memory sleep) q
  unfolding entered
  sleep-Inv here up empty = record {
    queue = v.queue;
    history = v.history;
    jc = ground (arith, (counts asleep).0);
    tc = ground (arith, (counts asleep).1);
    client = v.client;
    worker =
        update-forall (WorkerFits s.memory q) s.workers i asleep (up, empty) (λ j _. v.worker j);
    single = single-none asleep refl;
  }

  -- A spurious wakeup.
  pub wake_worker-Inv :
      s.workers i ≡ asleep → Inv n (record s { workers = update s.workers i ready }) q
  wake_worker-Inv here = record {
    queue = v.queue;
    history = v.history;
    jc = ground (arith, (counts ready).0);
    tc = ground (arith, (counts ready).1);
    client = v.client;
    worker = update-forall (WorkerFits s.memory q) s.workers i ready tt (λ j _. v.worker j);
    single = single-none ready refl;
  }

  -- The client is in `wait2`, and the pool not yet destroyed.
  leave-client :
      (tc : ℕ)
      → s.memory.pool.shutdown ≡ 1
      → s.memory.pool.tc ≡ suc tc
      → (c : Client) → ClientFits s.memory c
      → ClientFits (without_one s.memory tc) (signal_c c)
  leave-client tc shut e outside f = f
  leave-client tc shut e waiting f = f
  leave-client tc shut e wait_asleep f = absurd (omega (arith, f.0))
  leave-client tc shut e destroying f = f
  leave-client tc shut e destroy_asleep f = f.0
  leave-client tc shut e destroyed f = absurd (omega (arith, f.1))

  pub leave-Inv :
      (tc : ℕ)
      → s.workers i ≡ ready
      → s.memory.pool.shutdown ≡ 1
      → s.memory.pool.tc ≡ suc tc
      → Inv n (entered s i (without_one s.memory tc) leave) q
  unfolding entered
  leave-Inv tc here shut e = record {
    queue = record { chain = v.queue.chain; end = v.queue.end; apart = v.queue.apart };
    history = v.history;
    jc = ground (arith, (counts gone).0);
    tc = ground (arith, (counts gone).1);
    client = leave-client tc shut e s.client v.client;
    worker = update-forall (WorkerFits (without_one s.memory tc) q) s.workers i gone shut λ j _.
        fits_mono s.memory (without_one s.memory tc) q q (s.workers j) refl (λ b _ g h. (g, h))
          (λ z. z) (v.worker j);
    single = single-none gone refl;
  }

  module _ (a : ℕ) (c : Call) (r : List Node) (m : Memory) (first : q ≡ (a, c) ∷ r)
      (t : Takes a c r s.memory m) (up : s.memory.pool.shutdown ≡ 0) where
    take-client : (d : Client) → ClientFits s.memory d → ClientFits m d
    unfolding is_idle
    take-client outside f = t.keeps.shutdown ∙ f
    take-client waiting f = t.keeps.shutdown ∙ f
    take-client wait_asleep f = (t.keeps.shutdown ∙ f.0, ground (arith, t.jc))
    take-client destroying f = t.keeps.shutdown ∙ f
    take-client destroy_asleep f = absurd (omega (arith, f.0))
    take-client destroyed f = absurd (omega (arith, f.0))

    -- The address taken is held by no other worker: it was in the queue.
    not_held : (j : ℕ) → s.workers j ≢ finishing (some a)
    not_held j e =
        let f = subst (WorkerFits s.memory q) e (v.worker j) in
        let g = subst (Avoids a) first f.1 in g.0 refl

    take-worker : (j : ℕ) → WorkerFits m r (s.workers j)
    take-worker j =
        fits_mono s.memory m q r (s.workers j) t.keeps.shutdown
          (λ b e g h. (t.keeps.allocated b g, (subst (Avoids b) first h).1)) (λ z. absurd (cc z))
          (v.worker j)

    pub take-Inv : s.workers i ≡ ready → Avoids a r → Inv n (entered s i m (take (some a))) r
    unfolding entered
    take-Inv here apart = record {
      queue = t.queue;
      history = rw (t.call) (
          append_assoc s.ran (c ∷ []) (calls r)
          ∙ ap (λ l. s.ran ++ calls l) (sym first)
          ∙ v.history);
      jc = ground (arith, (counts (finishing (some a))).0, t.jc);
      tc = ground (arith, (counts (finishing (some a))).1, t.keeps.tc);
      client = take-client s.client v.client;
      worker =
          update-forall (WorkerFits m r) s.workers i (finishing (some a)) (λ z. cc (t.at.1), apart)
            (λ j _. take-worker j);
      single = λ j k b e f. ground (arith, v.single j k b, not_held j, not_held k);
    }

  module _ (a : ℕ) (m : Memory) (here : s.workers i ≡ finishing (some a))
      (t : Frees a q s.memory m) where
    finish-client :
        (d : Client) → ClientFits s.memory d → ClientFits m (if is_idle m then signal_b d else d)
    finish-client d f = elim (Bool-cases (is_idle m)) [
      | inl idle ↦ rw idle (signalled d f)
      | inr busy ↦ rw busy (unsignalled busy d f)
    ]
      where
        signalled : (d : Client) → ClientFits s.memory d → ClientFits m (signal_b d)
        signalled outside f = t.shutdown ∙ f
        signalled waiting f = t.shutdown ∙ f
        signalled wait_asleep f = t.shutdown ∙ f.0
        signalled destroying f = t.shutdown ∙ f
        signalled destroy_asleep f = (t.shutdown ∙ f.0, λ z. f.1 (sym t.tc ∙ z))
        signalled destroyed f = (t.shutdown ∙ f.0, t.tc ∙ f.1)

        unsignalled : is_idle m ≡ false → (d : Client) → ClientFits s.memory d → ClientFits m d
        unsignalled busy outside f = t.shutdown ∙ f
        unsignalled busy waiting f = t.shutdown ∙ f
        unsignalled busy wait_asleep f = (t.shutdown ∙ f.0, busy)
        unsignalled busy destroying f = t.shutdown ∙ f
        unsignalled busy destroy_asleep f = (t.shutdown ∙ f.0, λ z. f.1 (sym t.tc ∙ z))
        unsignalled busy destroyed f = (t.shutdown ∙ f.0, t.tc ∙ f.1)

    finish-worker : (j : ℕ) → i ≢ j → WorkerFits m q (s.workers j)
    finish-worker j ne =
        fits_mono s.memory m q q (s.workers j) t.shutdown
          (λ b e g h. (
            λ z. g (
                sym (
                  t.others b
                    (λ same. ne (v.single i j b (here ∙ ap (λ x. finishing (some x)) same) e)))
                ∙ z),
            h,
          ))
          (λ z. z) (v.worker j)

    pub finish-Inv : Inv n (finished s i m (is_idle m)) q
    unfolding finished
    finish-Inv = record {
      queue = t.queue;
      history = v.history;
      jc = ground (arith, (counts ready).0, t.jc);
      tc = ground (arith, (counts ready).1, t.tc);
      client = finish-client s.client v.client;
      worker = update-forall (WorkerFits m q) s.workers i ready tt finish-worker;
      single = single-none ready refl;
    }
