-- ===== src/Threads/Lines.antt =====
-- The lines that each thread prints (UserLevelThreadLibrary/threads.c), without the balances.
use mathlib.Core.List.{append_assoc}
use system_design.Base.{
  ℕ, zero, suc, ◌+◌, ◌-◌, ◌≡◌, refl, sym, ap, ap₂, ◌∙◌, pos_part, false, List, [], ◌∷◌, ◌++◌, map,
  upto, if◌then◌else◌, ◌==◌, arith,
}
use system_design.Threads.Programs.{Tcb}
use system_design.Threads.Fibonacci.{fib}
use system_design.Threads.Factorial.{fact}
use system_design.Threads.Machine.{
  Function, fibonacci_function, factorial_function, bank_function, Point, set_up, looped, locked,
  updating, releasing, Line, created, number, acquired, released, balance_changed,
}

pub data Mark : Type 0 where
  starts : Function → Mark
  tells : ℕ → Mark
  takes changes gives_back : Mark

-- What a line is to thread `u`: nothing, if another thread or `sighandler` prints it.
abbrev pub marks : ℕ → Line → List Mark
marks u (created v f) = if v == u then starts f ∷ [] else []
marks u (number v x) = if v == u then tells x ∷ [] else []
marks u (acquired v) = if v == u then takes ∷ [] else []
marks u (balance_changed v x y) = if v == u then changes ∷ [] else []
marks u (released v) = if v == u then gives_back ∷ [] else []
marks u _ = []

abbrev pub own : ℕ → List Line → List Mark
own u [] = []
own u (line ∷ lines) = marks u line ++ own u lines

abbrev pub numbers : (ℕ → ℕ) → ℕ → ℕ → List Mark
numbers f n m = map (λ i. tells (f i)) (upto n m)

-- What a thread has still to print.
abbrev pub ahead : Function → Point → Tcb → List Mark
ahead fibonacci_function set_up t = numbers fib (pos_part t.arg) 1
ahead fibonacci_function looped t = numbers fib (pos_part t.arg - t.i) (t.i + 1)
ahead factorial_function set_up t = numbers fact (pos_part t.arg) 1
ahead factorial_function looped t = numbers fact (pos_part t.arg - t.i2) (t.i2 + 1)
ahead bank_function set_up t = takes ∷ changes ∷ gives_back ∷ []
ahead bank_function locked t = takes ∷ changes ∷ gives_back ∷ []
ahead bank_function updating t = changes ∷ gives_back ∷ []
ahead bank_function releasing t = gives_back ∷ []
ahead _ at t = []

pub own-append : (u : ℕ) (xs ys : List Line) → own u (xs ++ ys) ≡ own u xs ++ own u ys
own-append u [] ys = refl
own-append u (x ∷ xs) ys =
    ap (λ l. marks u x ++ l) (own-append u xs ys)
    ∙ sym (append_assoc (marks u x) (own u xs) (own u ys))

pub numbers_next :
    (f : ℕ → ℕ) (n m n' m' : ℕ)
    → n ≡ n' + 1
    → m' ≡ m + 1
    → numbers f n m ≡ tells (f m) ∷ numbers f n' m'
numbers_next f zero m n' m' e d = absurd (omega arith)
numbers_next f (suc n) m n' m' e d =
    let same : n ≡ n' = omega arith in ap₂ (λ k j. tells (f m) ∷ numbers f k j) same (d' d)
  where
    d' : m' ≡ m + 1 → m + 1 ≡ m'
    d' e = omega arith

pub numbers_over : (f : ℕ → ℕ) (n m : ℕ) → n ≡ 0 → numbers f n m ≡ []
numbers_over f zero m e = refl
numbers_over f (suc n) m e = absurd (omega arith)

-- A mark of thread `i`, to itself and to another.
pub own_self : (i u : ℕ) (x : Mark) → i ≡ u → (if i == u then x ∷ [] else []) ≡ x ∷ []
own_self i u x e = ground (arith)

pub own_other :
    (i u v : ℕ) (x : Mark) → i ≡ u → (u == v) ≡ false → (if i == v then x ∷ [] else []) ≡ []
own_other i u v x e n = ground (arith)
