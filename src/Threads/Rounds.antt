-- ===== src/Threads/Rounds.antt =====
-- Every segment of every function runs (UserLevelThreadLibrary/threads.c).
use system_design.Base.{
  ℕ, ◌+◌, ◌-◌, ◌^◌, ◌<◌, ◌≡◌, ◌≢◌, refl, ap, sym, ◌∙◌, pos, pos_part, true, false, Option, some,
  ◌∷◌, arith,
}
use system_design.Threads.Programs.{Tcb}
use system_design.Threads.Fibonacci.{fib, iteration}
use system_design.Threads.Factorial.{fact, factorial_iteration-fact}
use system_design.Threads.Machine.{
  Function, fibonacci_function, factorial_function, bank_function, Point, set_up, looped, locked,
  updating, releasing, segment, fibonacci_round, factorial_round,
}
use system_design.Threads.Lines.{tells, ahead, numbers_next, numbers_over}
use system_design.Threads.Holding.{inside}
use system_design.Threads.Segments.{Computes, Fit, dues, Runs, round-Runs, bank-Runs}

Computes-same :
    {limit done done' : ℕ} {t t' : Tcb}
    → Computes limit done t
    → t'.arg ≡ t.arg
    → done' < pos_part t'.arg
    → Computes limit done' t'
Computes-same k e more = record {
  arg = e ∙ k.arg ∙ ap (λ a. pos (pos_part a)) (sym e);
  small = omega (arith, k.small, ap pos_part e);
  more = more;
}

module _ (u : ℕ) (t : Tcb) (b : ℕ) (o : Option ℕ) (free : o ≢ some u) (id : t.id ≡ u) where
  fibonacci-Runs : (at : Point) → Fit fibonacci_function at t → Runs fibonacci_function at u t b o
  unfolding segment fibonacci_round
  fibonacci-Runs set_up k =
      let (t', d) =
        iteration (record t { i = 1 })
          (record { started = omega arith; last_two = λ j e. absurd (omega arith) })
          (omega arith) in
      round-Runs fibonacci_function set_up u t t' t'.i t'.y b o (rw d.run refl) refl free
        (d.id ∙ id) d.arg k.arg (omega (arith, d.i, k.more)) (omega (arith, d.i)) refl
        (λ more. (Computes-same k d.arg more, d.next)) refl refl
        (ap (λ x. tells x ∷ ahead fibonacci_function looped t') d.printed
          ∙ sym (
              numbers_next fib (pos_part t.arg) 1 (pos_part t'.arg - t'.i) (t'.i + 1)
                (omega (arith, ap pos_part d.arg, d.i, k.more)) (omega (arith, d.i))))
        (λ e. numbers_over fib _ _ (omega arith))
  fibonacci-Runs looped (k, r) =
      let (t', d) = iteration (record t { i = t.i + 1 }) r (omega (arith, k.more, k.small)) in
      round-Runs fibonacci_function looped u t t' t'.i t'.y b o (rw d.run refl) refl free
        (d.id ∙ id) d.arg k.arg (omega (arith, d.i, k.more)) (omega (arith, d.i, k.more)) refl
        (λ more. (Computes-same k d.arg more, d.next)) refl refl
        (ap (λ x. tells x ∷ ahead fibonacci_function looped t') d.printed
          ∙ sym (
              numbers_next fib (pos_part t.arg - t.i) (t.i + 1) (pos_part t'.arg - t'.i) (t'.i + 1)
                (omega (arith, ap pos_part d.arg, d.i, k.more)) (omega (arith, d.i))))
        (λ e. numbers_over fib _ _ (omega arith))
  fibonacci-Runs locked h = absurd h
  fibonacci-Runs updating h = absurd h
  fibonacci-Runs releasing h = absurd h

  factorial-Runs : (at : Point) → Fit factorial_function at t → Runs factorial_function at u t b o
  unfolding segment factorial_round
  factorial-Runs set_up k =
      let t' : Tcb = record t { z = fact 1; i2 = 1 } in
      let run = factorial_iteration-fact (record t { z = 1; i2 = 1 }) 0 refl refl (omega arith) in
      round-Runs factorial_function set_up u t t' 1 (fact 1) b o (rw run refl) refl free id refl
        k.arg (omega (arith, k.more)) (omega arith) refl (λ more. (Computes-same k refl more, refl))
        refl refl
        (sym (
          numbers_next fact (pos_part t.arg) 1 (pos_part t.arg - 1) 2 (omega (arith, k.more)) refl))
        (λ e. numbers_over fact _ _ (omega arith))
  factorial-Runs looped (k, z) =
      let t' : Tcb = record t { z = fact (t.i2 + 1); i2 = t.i2 + 1 } in
      let run =
        factorial_iteration-fact (record t { i2 = t.i2 + 1 }) t.i2 (omega arith) z
          (omega (arith, k.more, k.small)) in
      round-Runs factorial_function looped u t t' (t.i2 + 1) (fact (t.i2 + 1)) b o (rw run refl)
        refl free id refl k.arg (omega (arith, k.more)) (omega (arith, k.more)) refl
        (λ more. (Computes-same k refl more, refl)) refl refl
        (sym (
          numbers_next fact (pos_part t.arg - t.i2) (t.i2 + 1) (pos_part t.arg - (t.i2 + 1))
            (t.i2 + 1 + 1) (omega (arith, k.more)) refl))
        (λ e. numbers_over fact _ _ (omega arith))
  factorial-Runs locked h = absurd h
  factorial-Runs updating h = absurd h
  factorial-Runs releasing h = absurd h

-- The computing threads are never inside the bank.
fibonacci_outside : (at : Point) (t : Tcb) → Fit fibonacci_function at t → inside at ≡ false
fibonacci_outside set_up t k = refl
fibonacci_outside looped t k = refl
fibonacci_outside locked t k = absurd k
fibonacci_outside updating t k = absurd k
fibonacci_outside releasing t k = absurd k

factorial_outside : (at : Point) (t : Tcb) → Fit factorial_function at t → inside at ≡ false
factorial_outside set_up t k = refl
factorial_outside looped t k = refl
factorial_outside locked t k = absurd k
factorial_outside updating t k = absurd k
factorial_outside releasing t k = absurd k

-- A thread whose block fits its point, and that owns the lock only inside the bank, runs.
pub segment-Runs :
    (f : Function) (at : Point) (u : ℕ) (t : Tcb) (b : ℕ) (o : Option ℕ)
    → t.id ≡ u
    → Fit f at t
    → (o ≡ some u → inside at ≡ true)
    → b + dues f at t < 2 ^ 31
    → Runs f at u t b o
segment-Runs fibonacci_function at u t b o id k own h =
    fibonacci-Runs u t b o (λ e. cc (own e, fibonacci_outside at t k)) id at k
segment-Runs factorial_function at u t b o id k own h =
    factorial-Runs u t b o (λ e. cc (own e, factorial_outside at t k)) id at k
segment-Runs bank_function at u t b o id k own h = bank-Runs at u t b o id k h
