-- ===== src/Threads/Creation.antt =====
-- The machine between two calls of `thread_create` (UserLevelThreadLibrary/main.c).
use mathlib.Core.List.{append-nil}
use system_design.Base.{
  ℕ, ◌+◌, ◌<◌, ◌≤◌, ◌≡◌, refl, ap, sym, subst, ap₂, dec_lt, ◌∙◌, inl, inr, ℤ, Bool, Bool-cases,
  true, false, some, none, List, [], ◌∷◌, ◌++◌, arith, length, ◌>>=◌, if◌then◌else◌, ltb, ◌==◌,
  update, get_elem?, length-append,
}
use system_design.Threads.State.{Sched, thread_max, write}
use system_design.Threads.Spec.{Plan, load}
use system_design.Threads.Arrays.{snoc_slots, write-lt, sched_ext, length-snoc}
use system_design.Threads.Programs.{Tcb, thread_setup}
use system_design.Threads.Machine.{Function, bank_function, Point, set_up, Machine, created}
use system_design.Threads.Start.{blank, thread_create, create_if}
use system_design.Threads.Totals.{total, is, occurs, total-append, total-cong}
use system_design.Threads.Segments.{Fit, left, dues}
use system_design.Threads.Steps.{left_of, dues_of, weigh, FitsOf, FitsOf-same}
use system_design.Threads.Lines.{Mark, starts, own, ahead, own-append}
use system_design.Threads.Ledger.{ledger, ledger-append}
use system_design.Threads.Told.{remains}

-- Nobody waits, the lock is free and the first thread is current.
abbrev pub queued : List ℕ → Plan
queued rs = record { ready = rs; waiting = []; current = 0; owner = none }

module _ (amounts : ℕ → ℤ) (given : ℕ → List Mark) where
  -- Threads with ids below `k` have been created, and none has run.
  pub record Created (k limit most : ℕ) (rs : List ℕ) (m : Machine) : Type 0 where
    pub going : m.halted ≡ false
    pub loaded : m.sched ≡ load (queued rs)
    pub single : (u : ℕ) → occurs u rs ≤ 1
    pub below : (u : ℕ) → k ≤ u → occurs u rs ≡ 0
    pub size : length rs ≤ k
    pub new : (u : ℕ) → 1 ≤ occurs u rs → m.points u ≡ set_up
    pub fits : (u : ℕ) → 1 ≤ occurs u rs → FitsOf m u
    pub room : m.balance + total (dues_of m) rs ≤ limit
    pub work : total (left_of m) rs ≤ most
    pub told : (u : ℕ) → u < k → own u m.printed ++ remains rs m u ≡ given u
    pub silent : (u : ℕ) → k ≤ u → own u m.printed ≡ []
    pub balanced : ledger amounts 500 m.printed ≡ some m.balance
    pub arg : (u : ℕ) → 1 ≤ occurs u rs → m.functions u ≡ bank_function → (m.tcbs u).arg ≡ amounts u

  pub Created-weaken :
      {k limit limit' most most' : ℕ} {rs : List ℕ} {m : Machine}
      → limit ≤ limit'
      → most ≤ most'
      → Created k limit most rs m
      → Created k limit' most' rs m
  Created-weaken l w c = record {
    going = c.going;
    loaded = c.loaded;
    single = c.single;
    below = c.below;
    size = c.size;
    new = c.new;
    fits = c.fits;
    room = omega (arith, c.room);
    work = omega (arith, c.work);
    told = c.told;
    silent = c.silent;
    balanced = c.balanced;
    arg = c.arg;
  }

  module _ (f : Function) (k : ℕ) (arg : ℤ) (m : Machine) (rs : List ℕ) where
    abbrev entered : Sched → Machine
    entered s = record m {
      sched = s;
      functions = update m.functions k f;
      points = update m.points k set_up;
      tcbs = update m.tcbs k (thread_setup k arg);
      printed = m.printed ++ created k f ∷ [];
    }

    abbrev added : Machine
    added = entered (load (queued (rs ++ k ∷ [])))

    thread_create-added :
        m.sched ≡ load (queued rs) → length rs < thread_max → thread_create f k arg m ≡ some added
    unfolding thread_create
    thread_create-added e h =
        ap
          (λ s. do
            ready ← write s.ready_queue s.rq_size (some k)
            some (entered (record s { ready_queue = ready; rq_size = s.rq_size + 1 })))
          e
        ∙ rw (write-lt (get_elem? rs) (length rs) (some k) h, snoc_slots rs k)
            (ap (λ o. do s ← o; some (entered s))
              (sched_ext refl refl (length-snoc rs k) refl refl refl))

    weighed :
        (w : Function → Point → Tcb → ℕ)
        → occurs k rs ≡ 0
        → total (weigh w added) (rs ++ k ∷ [])
          ≡ total (weigh w m) rs + w f set_up (thread_setup k arg)
    weighed w n =
        let self : (k == k) ≡ true = ground arith in
        let here : weigh w added k ≡ w f set_up (thread_setup k arg) = rw self refl in
        omega (
          arith,
          total-append (weigh w added) rs (k ∷ []),
          total-cong (weigh w m) (weigh w added) k rs (λ u other. rw other refl) n,
          here,
        )

    who : (u : ℕ) → occurs u (rs ++ k ∷ []) ≡ occurs u rs + is u k
    who u = omega (arith, total-append (is u) rs (k ∷ []))

    self : (k == k) ≡ true
    self = ground arith

    own-added :
        (u : ℕ) → own u added.printed ≡ own u m.printed ++ (if k == u then starts f ∷ [] else [])
    own-added u =
        own-append u m.printed (created k f ∷ []) ∙ ap (λ l. own u m.printed ++ l) (append-nil _)

    printed_other : (u : ℕ) → (k == u) ≡ false → own u added.printed ≡ own u m.printed
    printed_other u other =
        own-added u
        ∙ ap (λ x. own u m.printed ++ (if x then starts f ∷ [] else [])) other
        ∙ append-nil _

    remains_other : (u : ℕ) → (k == u) ≡ false → remains (rs ++ k ∷ []) added u ≡ remains rs m u
    remains_other u other =
        let there : occurs u (rs ++ k ∷ []) ≡ occurs u rs = ground (arith, who u) in
        rw (there, other) refl

    told_too :
        {limit most : ℕ}
        → Created k limit most rs m
        → given k ≡ starts f ∷ ahead f set_up (thread_setup k arg)
        → (u : ℕ) → u < k + 1
        → own u added.printed ++ remains (rs ++ k ∷ []) added u ≡ given u
    told_too c first u l = elim (Bool-cases (k == u)) [
      | inl same ↦
          let e : k ≡ u = ground arith in
          let there : occurs k (rs ++ k ∷ []) ≡ 1 =
            ground (arith, who k, c.below k (omega arith)) in
          subst (λ v. own v added.printed ++ remains (rs ++ k ∷ []) added v ≡ given v) e
            (ap₂ ◌++◌
                (own-added k
                  ∙ ap₂ (λ l x. l ++ (if x then starts f ∷ [] else [])) (c.silent k (omega arith))
                      self)
                (rw (there, self) refl)
              ∙ sym first)
      | inr other ↦
          ap₂ ◌++◌ (printed_other u other) (remains_other u other) ∙ c.told u (ground arith)
    ]

    arg_too :
        {limit most : ℕ}
        → Created k limit most rs m
        → (f ≡ bank_function → arg ≡ amounts k)
        → (u : ℕ) → 1 ≤ occurs u rs + is u k
        → added.functions u ≡ bank_function
        → (added.tcbs u).arg ≡ amounts u
    unfolding thread_setup
    arg_too c amount u o bank = elim (Bool-cases (k == u)) [
      | inl same ↦
          let e : k ≡ u = ground arith in
          rw same
            (amount (sym (ap (λ x. if x then f else m.functions u) same) ∙ bank) ∙ ap amounts e)
      | inr other ↦ rw other (
          c.arg u (ground (arith, o)) (sym (ap (λ x. if x then f else m.functions u) other) ∙ bank))
    ]

    added-Created :
        (limit most : ℕ)
        → k < thread_max
        → Fit f set_up (thread_setup k arg)
        → given k ≡ starts f ∷ ahead f set_up (thread_setup k arg)
        → (f ≡ bank_function → arg ≡ amounts k)
        → Created k limit most rs m
        → (thread_create f k arg m ≡ some added)
          × Created
              (k + 1)
              (limit + dues f set_up (thread_setup k arg))
              (most + left f set_up (thread_setup k arg))
              (rs ++ k ∷ [])
              added
    unfolding thread_setup
    added-Created limit most h fit first amount c = (
      thread_create-added c.loaded (omega (arith, c.size)),
      record {
        going = c.going;
        loaded = refl;
        single =
            λ u. ground (arith, who u, c.single u, c.below k (omega arith), ap (λ v. occurs v rs));
        below = λ u l. ground (arith, who u, c.below u (omega arith));
        size = omega (arith, c.size, length-append rs (k ∷ []));
        new = λ u o. ground (arith, who u, c.new u);
        fits = λ u o. placed u (omega (arith, who u, o));
        room = omega (arith, c.room, weighed dues (c.below k (omega arith)));
        work = omega (arith, c.work, weighed left (c.below k (omega arith)));
        told = λ u l. told_too c first u l;
        silent = λ u l. printed_other u (ground arith) ∙ c.silent u (omega arith);
        balanced =
            ledger-append amounts 500 m.printed (created k f ∷ [])
            ∙ ap (λ o. do b ← o; ledger amounts b (created k f ∷ [])) c.balanced;
        arg = λ u o bank. arg_too c amount u (omega (arith, who u, o)) bank;
      },
    )
      where
        placed : (u : ℕ) → 1 ≤ occurs u rs + is u k → FitsOf added u
        placed u o = elim (Bool-cases (k == u)) [
          | inl same ↦
              let e : k ≡ u = ground arith in
              let self : (k == k) ≡ true = ground arith in
              let here : FitsOf added k = rw self (refl, fit) in subst (FitsOf added) e here
          | inr other ↦
              FitsOf-same m added u (rw other refl) (rw other refl) (rw other refl)
                (c.fits u (ground (arith, o)))
        ]

  -- A thread that is created, or not.
  pub unborn :
      {k limit most : ℕ} (m : Machine) (rs : List ℕ)
      → Created k limit most rs m
      → (u : ℕ) → k ≤ u
      → own u m.printed ++ remains rs m u ≡ []
  unborn m rs c u h =
      ap₂ (λ l n. l ++ (if ltb 0 n then ahead (m.functions u) (m.points u) (m.tcbs u) else []))
        (c.silent u h) (c.below u h)

  told_yet :
      {limit most : ℕ} (k : ℕ) (m : Machine) (rs : List ℕ)
      → Created k limit most rs m
      → given k ≡ []
      → (u : ℕ) → u < k + 1
      → own u m.printed ++ remains rs m u ≡ given u
  told_yet k m rs c first u l = elim (dec_lt u k) [
    | yes low ↦ c.told u low
    | no high ↦
        let e : u ≡ k = omega arith in unborn m rs c u (omega arith) ∙ sym (ap given e ∙ first)
  ]

  pub create_if-Created :
      (test : Bool) (f : Function) (k : ℕ) (arg : ℤ) (m : Machine) (rs : List ℕ) (limit most : ℕ)
      → k < thread_max
      → (test ≡ true → Fit f set_up (thread_setup k arg))
      → given k ≡ (if test then starts f ∷ ahead f set_up (thread_setup k arg) else [])
      → (f ≡ bank_function → arg ≡ amounts k)
      → Created k limit most rs m
      → (n : Machine) × (create_if test f k arg m ≡ some n)
        × (qs : List ℕ) × Created
            (k + 1)
            (limit + dues f set_up (thread_setup k arg))
            (most + left f set_up (thread_setup k arg))
            qs
            n
  create_if-Created true f k arg m rs limit most h fit first amount c =
      let (run, d) = added-Created f k arg m rs limit most h (fit refl) first amount c in
      (added f k arg m rs, run, rs ++ k ∷ [], d)
  create_if-Created false f k arg m rs limit most h fit first amount c = (
    m,
    refl,
    rs,
    record {
      going = c.going;
      loaded = c.loaded;
      single = c.single;
      below = λ u l. c.below u (omega arith);
      size = omega (arith, c.size);
      new = c.new;
      fits = c.fits;
      room = omega (arith, c.room);
      work = omega (arith, c.work);
      told = λ u l. told_yet k m rs c first u l;
      silent = λ u l. c.silent u (omega arith);
      balanced = c.balanced;
      arg = c.arg;
    },
  )

  pub blank-Created : Created 0 500 0 [] blank
  blank-Created = record {
    told = λ u l. absurd (omega arith);
    silent = λ u l. refl;
    balanced = refl;
    arg = λ u o. absurd (omega arith);
    going = refl;
    loaded = refl;
    single = λ u. omega arith;
    below = λ u l. refl;
    size = omega arith;
    new = λ u o. absurd (omega arith);
    fits = λ u o. absurd (omega arith);
    room = omega arith;
    work = omega arith;
  }
