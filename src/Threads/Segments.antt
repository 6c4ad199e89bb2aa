-- ===== src/Threads/Segments.antt =====
-- One segment of a thread: what it needs to run, and how it stops
-- (UserLevelThreadLibrary/threads.c).
use system_design.Base.{
  ℕ, zero, suc, ◌+◌, ◌-◌, ◌^◌, ◌<◌, ◌≤◌, ◌≡◌, ◌≢◌, refl, ap, sym, ◌∙◌, inl, inr, ℤ, pos, negsuc,
  pos_part, neg_part, ◌==ℤ◌, Bool-cases, false, Option, some, none, List, [], ◌∷◌, ◌++◌,
  if◌then◌else◌, leb, ◌==◌, arith,
}
use system_design.Threads.Programs.{Tcb, int_result}
use system_design.Threads.Fibonacci.{Ready}
use system_design.Threads.Factorial.{fact}
use system_design.Threads.Machine.{
  Function, fibonacci_function, factorial_function, bank_function, Point, set_up, looped, locked,
  updating, releasing, number, balance_changed, Stop, yields, locks, exits, Segment, update_balance,
  unlock, bank_segment, segment,
}
use system_design.Threads.Lines.{
  Mark, tells, takes, changes, gives_back, own, ahead, own_self, own_other,
}
use system_design.Threads.Holding.{inside}

-- The argument of a loop that has done some of its rounds, and has at least one more to do.
pub record Computes (limit done : ℕ) (t : Tcb) : Type 0 where
  pub arg : t.arg ≡ pos (pos_part t.arg)
  pub small : pos_part t.arg ≤ limit
  pub more : done < pos_part t.arg

-- A control block at a point of its function.
abbrev pub Fit : Function → Point → Tcb → Type 0
Fit fibonacci_function set_up t = Computes 46 0 t
Fit fibonacci_function looped t = Computes 46 t.i t × Ready (record t { i = t.i + 1 })
Fit factorial_function set_up t = Computes 12 0 t
Fit factorial_function looped t = Computes 12 t.i2 t × (t.z ≡ fact t.i2)
Fit bank_function looped t = ⊥
Fit bank_function at t = neg_part t.arg < 2 ^ 31
Fit _ at t = ⊥

-- How many segments are left.
abbrev pub left : Function → Point → Tcb → ℕ
left fibonacci_function set_up t = pos_part t.arg
left fibonacci_function looped t = pos_part t.arg - t.i
left factorial_function set_up t = pos_part t.arg
left factorial_function looped t = pos_part t.arg - t.i2
left bank_function set_up t = 4
left bank_function locked t = 3
left bank_function updating t = 2
left bank_function releasing t = 1
left _ at t = 0

-- What the thread may still pay in.
abbrev pub dues : Function → Point → Tcb → ℕ
dues bank_function set_up t = pos_part t.arg
dues bank_function locked t = pos_part t.arg
dues bank_function updating t = pos_part t.arg
dues _ at t = 0

module _ (f : Function) (at : Point) (u : ℕ) (t : Tcb) (b : ℕ) (o : Option ℕ) where
  -- The thread goes on at another point.
  pub record Goes (next : Point) (seg : Segment) : Type 0 where
    pub id : seg.tcb.id ≡ u
    pub fit : Fit f next seg.tcb
    pub fewer : left f next seg.tcb < left f at t
    pub owner : seg.owner ≡ o
    pub room : seg.balance + dues f next seg.tcb ≤ b + dues f at t
    pub told : own u seg.lines ++ ahead f next seg.tcb ≡ ahead f at t
    pub others : (v : ℕ) → (u == v) ≡ false → own v seg.lines ≡ []

  pub record Ends (seg : Segment) : Type 0 where
    pub last : 1 ≤ left f at t
    pub owner : seg.owner ≡ unlock u o
    pub room : seg.balance ≤ b + dues f at t
    pub told : own u seg.lines ≡ ahead f at t
    pub others : (v : ℕ) → (u == v) ≡ false → own v seg.lines ≡ []

  abbrev pub Outcome : Segment → Stop → Type 0
  Outcome seg (yields next) = Goes next seg × (inside next ≡ inside at)
  Outcome seg locks = Goes locked seg × (inside at ≡ false)
  Outcome seg exits = Ends seg

  abbrev pub Runs : Type 0
  Runs = (seg : Segment) × (segment f at t b o ≡ some seg) × Outcome seg seg.stop

unlock_other : (u : ℕ) (o : Option ℕ) → o ≢ some u → unlock u o ≡ o
unfolding unlock
unlock_other u none h = refl
unlock_other u (some v) h = elim (Bool-cases (u == v)) [
  | inl same ↦ let e : v ≡ u = ground arith in absurd (h (ap some e))
  | inr other ↦ rw other
]

-- After `unlock` another thread owns the lock exactly as before.
pub unlock-some : (t u : ℕ) (o : Option ℕ) → unlock t o ≡ some u → (o ≡ some u) × (t ≢ u)
unfolding unlock
unlock-some t u none e = absurd cc
unlock-some t u (some v) e = elim (Bool-cases (t == v)) [
  | inl same ↦ absurd (ground (arith, e, same))
  | inr other ↦
      let f : v ≡ u = ground (arith, e, other) in (ap some f, λ d. ground (arith, d, f, other))
]

pub unlock_keeps : (t u : ℕ) (o : Option ℕ) → o ≡ some u → t ≢ u → unlock t o ≡ some u
unfolding unlock
unlock_keeps t u o e d = rw e (ground (arith, d))

update_balance_bound :
    (a : ℤ) (b : ℕ)
    → neg_part a < 2 ^ 31
    → b + pos_part a < 2 ^ 31
    → (b' : ℕ) × (update_balance a b ≡ some b') × (b' ≤ b + pos_part a)
unfolding update_balance int_result
update_balance_bound (pos zero) b g h = (b, ground arith, omega arith)
update_balance_bound (pos (suc n)) b g h = (b + suc n, ground arith, omega arith)
update_balance_bound (negsuc n) b g h = elim (Bool-cases (leb (suc n) b)) [
  | inl enough ↦ (b - suc n, ground arith, omega arith)
  | inr short ↦ (b, ground arith, omega arith)
]

pub bank-Runs :
    (at : Point) (u : ℕ) (t : Tcb) (b : ℕ) (o : Option ℕ)
    → t.id ≡ u
    → Fit bank_function at t
    → b + dues bank_function at t < 2 ^ 31
    → Runs bank_function at u t b o
unfolding segment bank_segment
bank-Runs set_up u t b o e f h = (
  _,
  refl,
  (
    record {
      id = e;
      fit = f;
      fewer = omega arith;
      owner = refl;
      room = omega arith;
      told = refl;
      others = λ v n. refl;
    },
    refl,
  ),
)
bank-Runs locked u t b o e f h = (
  _,
  refl,
  (
    record {
      id = e;
      fit = f;
      fewer = omega arith;
      owner = refl;
      room = omega arith;
      told = ap (λ x. (x ++ []) ++ ahead bank_function updating t) (own_self t.id u takes e);
      others = λ v n. ap (λ x. x ++ []) (own_other t.id u v takes e n);
    },
    refl,
  ),
)
bank-Runs updating u t b o e f h =
    let (b', run, bound) = update_balance_bound t.arg b f h in
    (
      record {
        tcb = t;
        balance = b';
        owner = o;
        lines = balance_changed t.id b b' ∷ [];
        stop = yields releasing;
      },
      rw run refl,
      (
        record {
          id = e;
          fit = f;
          fewer = omega arith;
          owner = refl;
          room = omega arith;
          told = ap (λ x. (x ++ []) ++ ahead bank_function releasing t) (own_self t.id u changes e);
          others = λ v n. ap (λ x. x ++ []) (own_other t.id u v changes e n);
        },
        refl,
      ),
    )
bank-Runs releasing u t b o e f h = (
  _,
  refl,
  record {
    last = omega arith;
    owner = ap (λ v. unlock v o) e;
    room = omega arith;
    told = ap (λ x. x ++ []) (own_self t.id u gives_back e);
    others = λ v n. ap (λ x. x ++ []) (own_other t.id u v gives_back e n);
  },
)
bank-Runs looped u t b o e f h = absurd f

-- How a round of a loop ends: `c` is its counter and `t'` the block after it.
abbrev pub round : Tcb → ℕ → ℕ → ℕ → Option ℕ → Segment
round t' c v b o = record {
  tcb = t';
  balance = b;
  owner = o;
  lines = number t'.id v ∷ [];
  stop = (if pos c ==ℤ t'.arg then exits else yields looped);
}

module _ (f : Function) (at : Point) (u : ℕ) (t t' : Tcb) (c v b : ℕ) (o : Option ℕ)
    (run : segment f at t b o ≡ some (round t' c v b o)) (out : inside at ≡ false)
    (free : o ≢ some u) (id : t'.id ≡ u) (same : t'.arg ≡ t.arg)
    (arg : t.arg ≡ pos (pos_part t.arg)) (low : c ≤ pos_part t.arg)
    (before : left f at t + c ≡ pos_part t.arg + 1)
    (behind : left f looped t' ≡ pos_part t'.arg - c) (fit : c < pos_part t'.arg → Fit f looped t')
    (nothing : dues f at t ≡ 0) (nothing' : dues f looped t' ≡ 0)
    (told : tells v ∷ ahead f looped t' ≡ ahead f at t)
    (over : pos_part t'.arg ≡ c → ahead f looped t' ≡ []) where
  printed_told : (ms : List Mark) → own u (number t'.id v ∷ []) ++ ms ≡ tells v ∷ ms
  printed_told ms = ap (λ x. (x ++ []) ++ ms) (own_self t'.id u (tells v) id)

  printed_others : (w : ℕ) → (u == w) ≡ false → own w (number t'.id v ∷ []) ≡ []
  printed_others w n = ap (λ x. x ++ []) (own_other t'.id u w (tells v) id n)

  pub round-Runs : Runs f at u t b o
  round-Runs = elim (Bool-cases (pos c ==ℤ t'.arg)) [
    | inl last ↦ (
      record (round t' c v b o) { stop = exits },
      run ∙ rw last refl,
      record {
        last = omega arith;
        owner = sym (unlock_other u o free);
        room = omega arith;
        told =
            ap (λ x. x ++ []) (own_self t'.id u (tells v) id)
            ∙ ap (◌∷◌ (tells v)) (sym (over (ground arith)))
            ∙ told;
        others = printed_others;
      },
    )
    | inr more ↦
        let higher : c < pos_part t'.arg = ground (arith, ap pos_part same) in
        (
          record (round t' c v b o) { stop = yields looped },
          run ∙ rw more refl,
          (
            record {
              id = id;
              fit = fit higher;
              fewer = omega (arith, ap pos_part same);
              owner = refl;
              room = omega (arith, ap pos_part same);
              told = printed_told (ahead f looped t') ∙ told;
              others = printed_others;
            },
            sym out,
          ),
        )
  ]
