-- ===== src/Threads/Serial.antt =====
-- The bank operations of two threads have the effect of one after the other
-- (UserLevelThreadLibrary/threads.c).
use mathlib.Core.Option.{some-injective}
use system_design.Base.{
  ℕ, zero, suc, ◌+◌, ◌≡◌, refl, subst, ℤ, Bool, true, false, ◌&&◌, Option, some, List, [], ◌∷◌,
  ◌++◌, arith, ◌==◌, ◌>>=◌, ◌>>◌, guard, bind_cases, if◌then◌else◌,
}
use system_design.Threads.Machine.{
  Line, created, number, acquired, released, balance_changed, caught_tstp, caught_alrm,
  update_balance,
}
use system_design.Threads.Totals.{is, occurs}
use system_design.Threads.Lines.{
  Mark, starts, tells, takes, changes, gives_back, marks, own, numbers,
}
use system_design.Threads.Ledger.{entry, ledger}

-- The threads that changed the balance, in their order.
abbrev pub changed : List Line → List ℕ
changed [] = []
changed (balance_changed u x y ∷ lines) = u ∷ changed lines
changed (line ∷ lines) = changed lines

-- The balance after the operations of some threads, one after the other.
abbrev pub follows : (ℕ → ℤ) → ℕ → List ℕ → Option ℕ
follows amount b [] = some b
follows amount b (u ∷ us) = do b' ← update_balance (amount u) b; follows amount b' us

pub guarded : (t : Bool) (y b : ℕ) → (do guard t; some y) ≡ some b → (t ≡ true) × (y ≡ b)
guarded true y b e = (refl, some-injective _ _ e)
guarded false y b e = absurd (cc)

pub ledger-follows :
    (amount : ℕ → ℤ) (b : ℕ) (xs : List Line) (c : ℕ)
    → ledger amount b xs ≡ some c
    → follows amount b (changed xs) ≡ some c
ledger-follows amount b [] c e = e
ledger-follows amount b (balance_changed u x y ∷ xs) c e =
    let (b₁, entered, rest) = bind_cases (entry amount b (balance_changed u x y)) _ c e in
    let (b₂, updated, tested) = bind_cases (update_balance (amount u) b) _ b₁ entered in
    let (t, now) = guarded (b == x && b₂ == y) y b₁ tested in
    let same : b₁ ≡ b₂ = ground arith in
    rw updated (
      subst (λ k. follows amount k (changed xs) ≡ some c) same (ledger-follows amount b₁ xs c rest))
ledger-follows amount b (created u f ∷ xs) c e = ledger-follows amount b xs c e
ledger-follows amount b (number u v ∷ xs) c e = ledger-follows amount b xs c e
ledger-follows amount b (acquired u ∷ xs) c e = ledger-follows amount b xs c e
ledger-follows amount b (released u ∷ xs) c e = ledger-follows amount b xs c e
ledger-follows amount b (caught_tstp ∷ xs) c e = ledger-follows amount b xs c e
ledger-follows amount b (caught_alrm ∷ xs) c e = ledger-follows amount b xs c e

-- How many marks tell of a change.
abbrev pub tally : List Mark → ℕ
tally [] = 0
tally (changes ∷ ms) = suc (tally ms)
tally (m ∷ ms) = tally ms

tally-append : (xs ys : List Mark) → tally (xs ++ ys) ≡ tally xs + tally ys
tally-append [] ys = omega arith
tally-append (changes ∷ xs) ys = omega (arith, tally-append xs ys)
tally-append (starts f ∷ xs) ys = tally-append xs ys
tally-append (tells v ∷ xs) ys = tally-append xs ys
tally-append (takes ∷ xs) ys = tally-append xs ys
tally-append (gives_back ∷ xs) ys = tally-append xs ys

pub tally-numbers : (f : ℕ → ℕ) (n m : ℕ) → tally (numbers f n m) ≡ 0
tally-numbers f zero m = refl
tally-numbers f (suc n) m = tally-numbers f n (m + 1)

-- A line of which no mark tells of a change.
tally_quiet : (b : Bool) (m : Mark) → tally (m ∷ []) ≡ 0 → tally (if b then m ∷ [] else []) ≡ 0
tally_quiet true m e = e
tally_quiet false m e = refl

tally_change : (u v : ℕ) → tally (if v == u then changes ∷ [] else []) ≡ is u v
tally_change u v = ground arith

pub occurs-changed : (u : ℕ) (xs : List Line) → occurs u (changed xs) ≡ tally (own u xs)
occurs-changed u [] = refl
occurs-changed u (balance_changed v x y ∷ xs) = omega (
  arith,
  occurs-changed u xs,
  tally-append (marks u (balance_changed v x y)) (own u xs),
  tally_change u v,
)
occurs-changed u (caught_tstp ∷ xs) = occurs-changed u xs
occurs-changed u (caught_alrm ∷ xs) = occurs-changed u xs
occurs-changed u (created v f ∷ xs) = omega (
  arith,
  occurs-changed u xs,
  tally-append (marks u (created v f)) (own u xs),
  tally_quiet (v == u) (starts f) refl,
)
occurs-changed u (number v x ∷ xs) = omega (
  arith,
  occurs-changed u xs,
  tally-append (marks u (number v x)) (own u xs),
  tally_quiet (v == u) (tells x) refl,
)
occurs-changed u (acquired v ∷ xs) = omega (
  arith,
  occurs-changed u xs,
  tally-append (marks u (acquired v)) (own u xs),
  tally_quiet (v == u) takes refl,
)
occurs-changed u (released v ∷ xs) = omega (
  arith,
  occurs-changed u xs,
  tally-append (marks u (released v)) (own u xs),
  tally_quiet (v == u) gives_back refl,
)
