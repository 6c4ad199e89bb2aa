-- ===== src/Threads/Factorial.antt =====
-- What the thread function `factorial` of UserLevelThreadLibrary/threads.c prints.
use native.Mathlib.Nat.{suc-mul, mul_comm}
use system_design.Base.{
  ℕ, zero, suc, ◌+◌, ◌-◌, ◌*◌, ◌^◌, ◌<◌, ◌≤◌, ◌≡◌, refl, sym, ap, ap₂, ◌∙◌, true, false, some, map,
  upto, ltb, ◌==ℤ◌, pos, arith,
}
use system_design.Threads.Programs.{
  Tcb, thread_setup, int_result, factorial_iteration, factorial_loop, factorial,
}

abbrev pub fact : ℕ → ℕ
fact zero = 1
fact (suc n) = suc n * fact n

fact-le_add : (k n : ℕ) → fact n ≤ fact (k + n)
fact-le_add zero n = let e : n ≡ 0 + n = omega arith in omega (arith, ap fact e)
fact-le_add (suc k) n =
    let e : suc (k + n) ≡ suc k + n = omega arith in
    omega (arith, fact-le_add k n, suc-mul (k + n) (fact (k + n)), ap fact e)

fact_12 : fact 12 ≡ 479001600
fact_12 = refl

fact_small : (n : ℕ) → n ≤ 12 → fact n < 2 ^ 31
fact_small n h =
    let e : (12 - n) + n ≡ 12 = omega arith in
    omega (arith, fact-le_add (12 - n) n, ap fact e, fact_12)

pub factorial_iteration-fact :
    (t : Tcb) (m : ℕ)
    → t.i2 ≡ suc m
    → t.z ≡ fact m
    → t.i2 ≤ 12
    → factorial_iteration t ≡ some (record t { z = fact t.i2 })
unfolding factorial_iteration int_result
factorial_iteration-fact t m e z h =
    let product : t.z * t.i2 ≡ fact t.i2 =
      ap₂ ◌*◌ z e ∙ mul_comm (fact m) (suc m) ∙ sym (ap fact e) in
    let small = fact_small t.i2 h in
    let fits : ltb (t.z * t.i2) (2 ^ 31) ≡ true = ground (arith, product) in
    rw fits (ap (λ z. some (record t { z = z })) product)

factorial_loop-lines :
    (n m : ℕ) (t : Tcb)
    → t.i2 ≡ suc m
    → t.z ≡ fact m
    → t.arg ≡ pos (t.i2 + n)
    → t.i2 + n ≤ 12
    → factorial_loop (suc n) t ≡ some (map fact (upto (suc n) t.i2))
unfolding factorial_loop
factorial_loop-lines zero m t e z total h =
    let last : (pos t.i2 ==ℤ t.arg) ≡ true = ground arith in
    rw (factorial_iteration-fact t m e z (omega arith), last) refl
factorial_loop-lines (suc n) m t e z total h =
    let more : (pos t.i2 ==ℤ t.arg) ≡ false = ground arith in
    let rest =
      factorial_loop-lines n (suc m) (record t { z = fact t.i2; i2 = t.i2 + 1 }) (omega arith)
        (ap fact e) (total ∙ ap pos (omega arith)) (omega arith) in
    rw (factorial_iteration-fact t m e z (omega arith), more, rest) refl

-- A thread of `factorial` with an argument from 1 to 12 prints 1! to arg!, exits after exactly `arg`
-- iterations, and no product on the way exceeds an `int`.
pub factorial_prints :
    (id arg : ℕ)
    → 1 ≤ arg
    → arg ≤ 12
    → factorial arg (thread_setup id (pos arg)) ≡ some (map fact (upto arg 1))
unfolding thread_setup factorial
factorial_prints id zero p h = absurd (omega arith)
factorial_prints id (suc n) p h =
    factorial_loop-lines n 0 (record (thread_setup id (pos (suc n))) { z = 1; i2 = 1 }) refl refl
      (ap pos (omega arith)) (omega arith)
