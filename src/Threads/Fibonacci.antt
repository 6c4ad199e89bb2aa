-- ===== src/Threads/Fibonacci.antt =====
-- What the thread function `fibonacci` of UserLevelThreadLibrary/threads.c prints.
use system_design.Base.{
  ℕ, zero, suc, ◌+◌, ◌-◌, ◌^◌, ◌<◌, ◌≤◌, ◌≡◌, ◌⊎◌, inl, inr, refl, Bool-cases, sym, ap, ap₂, ◌∙◌,
  true, false, some, [], ◌∷◌, map, upto, ltb, ◌==ℤ◌, pos, arith,
}
use system_design.Threads.Programs.{Tcb, thread_setup, int_result, fibonacci_iteration, fibonacci}

abbrev pub fib : ℕ → ℕ
fib zero = 0
fib (suc zero) = 1
fib (suc (suc n)) = fib (suc n) + fib n

-- The same from two numbers on, in one loop.
abbrev fib_from : ℕ → ℕ → ℕ → ℕ
fib_from zero a b = a
fib_from (suc n) a b = fib_from n b (a + b)

fib_from-fib : (n m : ℕ) → fib_from n (fib m) (fib (suc m)) ≡ fib (n + m)
fib_from-fib zero m = ap fib (omega arith)
fib_from-fib (suc n) m =
    let swap : fib m + fib (suc m) ≡ fib (suc (suc m)) = omega arith in
    ap (fib_from n (fib (suc m))) swap ∙ fib_from-fib n (suc m) ∙ ap fib (omega arith)

fib_46 : fib 46 ≡ 1836311903
fib_46 = sym (fib_from-fib 46 0)

fib-le_suc : (n : ℕ) → fib n ≤ fib (suc n)
fib-le_suc zero = omega arith
fib-le_suc (suc n) = omega arith

fib-le_add : (k n : ℕ) → fib n ≤ fib (k + n)
fib-le_add zero n = let e : n ≡ 0 + n = omega arith in omega (arith, ap fib e)
fib-le_add (suc k) n =
    let e : suc (k + n) ≡ suc k + n = omega arith in
    omega (arith, fib-le_add k n, fib-le_suc (k + n), ap fib e)

fib_small : (n : ℕ) → n ≤ 46 → fib n < 2 ^ 31
fib_small n h =
    let e : (46 - n) + n ≡ 46 = omega arith in
    omega (arith, fib-le_add (46 - n) n, ap fib e, fib_46)

-- What an iteration finds: from the third on, the last two numbers.
pub record Ready (t : Tcb) : Type 0 where
  pub started : 0 < t.i
  pub last_two : (k : ℕ) → t.i ≡ k + 3 → (t.x ≡ fib (k + 1)) × (t.y ≡ fib (k + 2))

-- `t'` is the block after an iteration from `t`.
pub record Iterated (t t' : Tcb) : Type 0 where
  pub run : fibonacci_iteration t ≡ some t'
  pub printed : t'.y ≡ fib t.i
  pub i : t'.i ≡ t.i
  pub arg : t'.arg ≡ t.arg
  pub id : t'.id ≡ t.id
  pub next : Ready (record t' { i = t'.i + 1 })

third_on : (t : Tcb) (k : ℕ) → Ready t → t.i ≡ k + 3 → t.i ≤ 46 → (t' : Tcb) × Iterated t t'
unfolding fibonacci_iteration int_result
third_on t k r e h =
    let (ex, ey) = r.last_two k e in
    let later : ltb 2 t.i ≡ true = ground arith in
    let number : k + 3 ≡ suc (suc (suc k)) = omega arith in
    let second : k + 2 ≡ suc (suc k) = omega arith in
    let first : k + 1 ≡ suc k = omega arith in
    let sum : t.x + t.y ≡ fib t.i =
      omega (arith, ex, ey, ap fib e, ap fib number, ap fib second, ap fib first) in
    let small = fib_small t.i h in
    let fits : ltb (t.x + t.y) (2 ^ 31) ≡ true = ground arith in
    (
      record t { x = t.y; y = t.x + t.y },
      record {
        run = rw (later, fits) refl;
        printed = sum;
        i = refl;
        arg = refl;
        id = refl;
        next = record {
          started = omega arith;
          last_two = λ j f.
              let shift : k + 2 ≡ j + 1 = omega (arith, e, f) in
              let here : t.i ≡ j + 2 = omega (arith, e, f) in
              (ey ∙ ap fib shift, sum ∙ ap fib here);
        };
      },
    )

first_two : (t : Tcb) → t.i ≤ 2 → 0 < t.i → (t' : Tcb) × Iterated t t'
unfolding fibonacci_iteration
first_two t h p =
    let early : ltb 2 t.i ≡ false = ground arith in
    let one : (t.i ≡ 1) ⊎ (t.i ≡ 2) = omega arith in
    (
      record t { x = 1; y = 1 },
      record {
        run = rw early refl;
        printed = elim one [ inl e ↦ sym (ap fib e) | inr e ↦ sym (ap fib e) ];
        i = refl;
        arg = refl;
        id = refl;
        next = record {
          started = omega arith;
          last_two = λ j f.
              let zeroth : 0 ≡ j = omega (arith, f) in
              (ap (λ k. fib (k + 1)) zeroth, ap (λ k. fib (k + 2)) zeroth);
        };
      },
    )

pub iteration : (t : Tcb) → Ready t → t.i ≤ 46 → (t' : Tcb) × Iterated t t'
iteration t r h = elim (Bool-cases (ltb 2 t.i)) [
  | inl later ↦ third_on t (t.i - 3) r (ground arith) h
  | inr early ↦ first_two t (ground arith) r.started
]

fibonacci-lines :
    (n : ℕ) (t : Tcb)
    → Ready t
    → t.arg ≡ pos (t.i + n)
    → t.i + n ≤ 46
    → fibonacci (suc n) t ≡ some (map fib (upto (suc n) t.i))
unfolding fibonacci
fibonacci-lines zero t r e h =
    let (t', d) = iteration t r (omega arith) in
    let last : (pos t'.i ==ℤ t'.arg) ≡ true = ground (arith, d.i, d.arg) in
    rw (d.run, last) (ap (λ v. some (v ∷ [])) d.printed)
fibonacci-lines (suc n) t r e h =
    let (t', d) = iteration t r (omega arith) in
    let more : (pos t'.i ==ℤ t'.arg) ≡ false = ground (arith, d.i, d.arg) in
    let rest =
      fibonacci-lines n (record t' { i = t'.i + 1 }) d.next
        (d.arg ∙ e ∙ ap pos (omega (arith, d.i))) (omega (arith, d.i)) in
    rw (d.run, more, rest) (ap₂ (λ v j. some (v ∷ map fib (upto (suc n) (j + 1)))) d.printed d.i)

-- A thread of `fibonacci` with an argument from 1 to 46 prints FIB(1) to FIB(arg), exits after
-- exactly `arg` iterations, and no sum on the way exceeds an `int`.
pub fibonacci_prints :
    (id arg : ℕ)
    → 1 ≤ arg
    → arg ≤ 46
    → fibonacci arg (thread_setup id (pos arg)) ≡ some (map fib (upto arg 1))
unfolding thread_setup
fibonacci_prints id zero p h = absurd (omega arith)
fibonacci_prints id (suc n) p h =
    fibonacci-lines n (thread_setup id (pos (suc n)))
      (record { started = omega arith; last_two = λ k e. absurd (omega arith) })
      (ap pos (omega arith)) (omega arith)
