-- ===== src/Threads/Launch.antt =====
-- The threads that `main` creates (UserLevelThreadLibrary/main.c) satisfy the invariant when the
-- first of them is resumed.
use mathlib.Core.List.{append-nil}
use system_design.Base.{
  ℕ, suc, ◌+◌, ◌^◌, ◌<◌, ◌≤◌, ◌≡◌, refl, ap, sym, subst, dec_lt, ◌∙◌, inl, inr, ℤ, pos, negsuc,
  pos_part, neg_part, Bool, true, false, some, List, [], ◌∷◌, ◌++◌, arith, if◌then◌else◌, ltb, ◌==◌,
}
use system_design.Threads.State.{Sched, called}
use system_design.Threads.Scheduler.{reschedule, dispatch, scheduler}
use system_design.Threads.Spec.{Plan, load}
use system_design.Threads.Progress.{IsSound, dispatch_resumes}
use system_design.Threads.Order.{threads}
use system_design.Threads.Programs.{thread_setup}
use system_design.Threads.Machine.{
  Function, fibonacci_function, factorial_function, bank_function, Machine, enter_scheduler,
}
use system_design.Threads.Start.{blank, init_threads, start_threading}
use system_design.Threads.Totals.{total, is, occurs, total-append}
use system_design.Threads.Holding.{inside}
use system_design.Threads.Segments.{Computes}
use system_design.Threads.Steps.{left_of, dues_of}
use system_design.Threads.Fibonacci.{fib}
use system_design.Threads.Factorial.{fact}
use system_design.Threads.Lines.{numbers, takes, changes, gives_back, Mark, starts, own}
use system_design.Threads.Ledger.{Account, step-Account}
use system_design.Threads.Told.{Told, remains, step-Told}
use system_design.Threads.Finish.{Kept, Keeps}
use system_design.Threads.Creation.{
  queued, Created, Created-weaken, unborn, create_if-Created, blank-Created,
}

-- What is kept from then on: the ledger, and what each thread prints.
abbrev pub Reported : (ℕ → ℤ) → (ℕ → List Mark) → Plan → Machine → Type 0
Reported amounts given p m = Account amounts p m × Told given p m

pub step-Reported :
    (amounts : ℕ → ℤ) (given : ℕ → List Mark) (limit : ℕ) → Keeps (Reported amounts given) limit
step-Reported amounts given limit p q m n t seg inv ran e (account, told) = (
  step-Account amounts limit p q m n t seg inv ran e account,
  step-Told given limit p q m n t seg inv ran e told,
)

reports :
    (amounts : ℕ → ℤ) (given : ℕ → List Mark) (limit most : ℕ) (rs : List ℕ) (m : Machine)
    → ((u : ℕ) → 4 ≤ u → given u ≡ [])
    → Created amounts given 4 limit most rs m
    → (s : Sched) (h : Bool)
    → Reported amounts given (queued rs) (record m { sched = s; halted = h })
reports amounts given limit most rs m rest c s h = (
  record {
    balanced = c.balanced;
    arg = λ u o. c.arg u (subst (λ l. 1 ≤ occurs u l) (append-nil rs) o);
  },
  λ u. ap (λ l. own u m.printed ++ remains l m u) (append-nil rs) ∙ elim (dec_lt u 4) [
    | yes low ↦ c.told u low
    | no high ↦ unborn amounts given m rs c u (omega arith) ∙ sym (rest u (omega arith))
  ],
)

-- The first call of `scheduler`: it resumes the first thread, or there is none.
enter-Created :
    (amounts : ℕ → ℤ) (given : ℕ → List Mark)
    → ((u : ℕ) → 4 ≤ u → given u ≡ [])
    → (limit most : ℕ) (rs : List ℕ) (m : Machine) → Created amounts given 4 limit most rs m
    → (n : Machine) × (enter_scheduler called m ≡ some n)
      × Kept (Reported amounts given) limit (suc most) n
unfolding enter_scheduler scheduler reschedule dispatch
enter-Created amounts given rest limit most [] m c = (
  record m { sched = load (queued []); halted = true },
  rw c.loaded refl,
  (
    record {
      plan = queued [];
      loaded = refl;
      fewer = omega arith;
      bounded = omega (arith, c.room);
      outcome = inl (refl, (refl, refl));
    },
    reports amounts given limit most [] m rest c _ _,
  ),
)
enter-Created amounts given rest limit most (r ∷ rs) m c =
    let p = queued (r ∷ rs) in
    let sound : IsSound p = record {
      fits = record { current_ready = omega arith; room = omega (arith, c.size) };
      owner_ready = λ u e. absurd (cc);
    } in
    let all : (w : ℕ → ℕ) → total w (threads p) ≡ total w (r ∷ rs) =
      λ w. total-append w (r ∷ rs) [] ∙ omega arith in
    (
      record m { sched = load p; halted = false },
      rw (c.loaded, dispatch_resumes p r sound.fits refl) refl,
      (
        record {
          plan = p;
          loaded = refl;
          fewer = omega (arith, c.work, all (left_of m));
          bounded = omega (arith, c.room);
          outcome = inr (record {
            going = refl;
            loaded = refl;
            sound = sound;
            holds = record {
              single = λ u. omega (arith, c.single u);
              inside_owns = λ u n o i. absurd (cc (i, ap inside (c.new u o)));
              owner_inside = λ u e. absurd (cc);
              waits = λ u o. absurd (omega arith);
            };
            fits = λ u o. c.fits u (omega (arith, all (is u)));
            room = omega (arith, c.room, all (dues_of m));
          });
        },
        reports amounts given limit most (r ∷ rs) m rest c _ _,
      ),
    )

-- The amounts of the two bank operations.
abbrev pub amounts : ℤ → ℤ → ℕ → ℤ
amounts bank1_arg bank2_arg u = if u == 2 then bank1_arg else bank2_arg

-- The lines of a thread that is created if `test` holds.
abbrev lines_if : Bool → Function → List Mark → List Mark
lines_if test f marks = if test then starts f ∷ marks else []

-- What each thread is to print.
abbrev pub script : ℤ → ℤ → ℤ → ℤ → ℕ → List Mark
script fib_arg fact_arg bank1_arg bank2_arg u =
    if u == 0
    then lines_if (ltb 0 (pos_part fib_arg)) fibonacci_function (numbers fib (pos_part fib_arg) 1)
    else if u == 1
    then lines_if (ltb 0 (pos_part fact_arg)) factorial_function
        (numbers fact (pos_part fact_arg) 1)
    else if u == 2
    then lines_if (ltb 0 (pos_part bank1_arg + neg_part bank1_arg)) bank_function
        (takes ∷ changes ∷ gives_back ∷ [])
    else if u == 3
    then lines_if (ltb 0 (pos_part bank2_arg + neg_part bank2_arg)) bank_function
        (takes ∷ changes ∷ gives_back ∷ [])
    else []

-- A positive argument within its bound.
computes :
    (limit id : ℕ) (arg : ℤ)
    → pos_part arg ≤ limit
    → ltb 0 (pos_part arg) ≡ true
    → Computes limit 0 (thread_setup id arg)
unfolding thread_setup
computes limit id (pos n) low more = record { arg = refl; small = low; more = ground arith }
computes limit id (negsuc n) low more = absurd (ground arith)

module _ (fib_arg fact_arg bank1_arg bank2_arg : ℤ) (fib_low : pos_part fib_arg ≤ 46)
    (fact_low : pos_part fact_arg ≤ 12) (bank1_low : neg_part bank1_arg < 2 ^ 31)
    (bank2_low : neg_part bank2_arg < 2 ^ 31) where
  abbrev payments : ℕ → ℤ
  payments = amounts bank1_arg bank2_arg

  abbrev parts : ℕ → List Mark
  parts = script fib_arg fact_arg bank1_arg bank2_arg

  -- What may ever be in the bank.
  abbrev pub limit : ℕ
  limit = 500 + pos_part bank1_arg + pos_part bank2_arg

  -- How many segments there are at most.
  abbrev pub most : ℕ
  most = pos_part fib_arg + pos_part fact_arg + 8

  init_threads-Created :
      (m : Machine) × (init_threads fib_arg fact_arg bank1_arg bank2_arg blank ≡ some m)
      × (rs : List ℕ) × Created payments parts 4 limit most rs m
  unfolding init_threads thread_setup
  init_threads-Created =
      let (m₁, r₁, rs₁, c₁) =
        create_if-Created payments parts (ltb 0 (pos_part fib_arg)) fibonacci_function 0 fib_arg
          blank [] 500 0 (omega arith) (computes 46 0 fib_arg fib_low) refl (λ e. absurd (cc))
          (blank-Created payments parts) in
      let (m₂, r₂, rs₂, c₂) =
        create_if-Created payments parts (ltb 0 (pos_part fact_arg)) factorial_function 1 fact_arg
          m₁ rs₁ _ _ (omega arith) (computes 12 1 fact_arg fact_low) refl (λ e. absurd (cc)) c₁ in
      let (m₃, r₃, rs₃, c₃) =
        create_if-Created payments parts (ltb 0 (pos_part bank1_arg + neg_part bank1_arg))
          bank_function 2 bank1_arg m₂ rs₂ _ _ (omega arith) (λ _. bank1_low) refl (λ _. refl) c₂ in
      let (m₄, r₄, rs₄, c₄) =
        create_if-Created payments parts (ltb 0 (pos_part bank2_arg + neg_part bank2_arg))
          bank_function 3 bank2_arg m₃ rs₃ _ _ (omega arith) (λ _. bank2_low) refl (λ _. refl) c₃ in
      (m₄, rw (r₁, r₂, r₃) r₄, rs₄, Created-weaken payments parts (omega arith) (omega arith) c₄)

  pub start_threading-Next :
      (m : Machine) × (start_threading fib_arg fact_arg bank1_arg bank2_arg ≡ some m)
      × Kept (Reported payments parts) limit (suc most) m
  unfolding start_threading
  start_threading-Next =
      let (m, r, rs, c) = init_threads-Created in
      let (n, e, next) = enter-Created payments parts (λ u h. ground arith) limit most rs m c in
      (n, rw r e, next)
