-- ===== src/Threads/Orders.antt =====
-- The two orders of the two bank operations (UserLevelThreadLibrary/threads.c).
use system_design.Base.{
  ℕ, zero, suc, ◌+◌, ◌≤◌, ◌≡◌, ◌≢◌, ◌⊎◌, refl, ap, sym, ◌∙◌, inl, inr, ℤ, pos, negsuc, pos_part,
  neg_part, Bool, Bool-cases, true, false, Option, some, List, [], ◌∷◌, arith, bit, ltb, ◌==◌,
  ◌>>=◌, bind_cases, if◌then◌else◌,
}
use system_design.Threads.Programs.{int_result}
use system_design.Threads.Fibonacci.{fib}
use system_design.Threads.Factorial.{fact}
use system_design.Threads.Machine.{
  Function, fibonacci_function, factorial_function, bank_function, Line, update_balance,
}
use system_design.Threads.Totals.{is, occurs}
use system_design.Threads.Lines.{Mark, starts, takes, changes, gives_back, own, numbers}
use system_design.Threads.Ledger.{ledger}
use system_design.Threads.Launch.{amounts, script}
use system_design.Threads.Serial.{
  changed, follows, ledger-follows, tally, tally-numbers, occurs-changed,
}

-- Two operations on the first balance, one after the other.
abbrev pub paid : ℤ → ℤ → Option ℕ
paid first second = do b ← update_balance first 500; update_balance second b

-- Whether an argument asks for an operation.
abbrev asks : ℤ → Bool
asks arg = ltb 0 (pos_part arg + neg_part arg)

idle : (arg : ℤ) (b : ℕ) → asks arg ≡ false → update_balance arg b ≡ some b
unfolding update_balance int_result
idle (pos zero) b e = ground arith
idle (pos (suc n)) b e = absurd (ground arith)
idle (negsuc n) b e = absurd (ground arith)

tally_if :
    (t : Bool)
    → tally (if t then starts bank_function ∷ takes ∷ changes ∷ gives_back ∷ [] else []) ≡ bit t
tally_if true = refl
tally_if false = refl

tally-numbers_if :
    (t : Bool) (f : Function) (g : ℕ → ℕ) (n : ℕ)
    → tally (if t then starts f ∷ numbers g n 1 else []) ≡ 0
tally-numbers_if true f g n = tally-numbers g n 1
tally-numbers_if false f g n = refl

bit_low : (t : Bool) → bit t ≤ 1
bit_low true = omega arith
bit_low false = omega arith

module _ (fib_arg fact_arg bank1_arg bank2_arg : ℤ) where
  abbrev parts : ℕ → List Mark
  parts = script fib_arg fact_arg bank1_arg bank2_arg

  tally-others : (u : ℕ) → u ≢ 2 → u ≢ 3 → tally (parts u) ≡ 0
  tally-others u n2 n3 = elim (Bool-cases (u == 0)) [
    | inl here ↦
        rw here
          (tally-numbers_if (ltb 0 (pos_part fib_arg)) fibonacci_function fib (pos_part fib_arg))
    | inr other ↦ elim (Bool-cases (u == 1)) [
      | inl here ↦
          rw (other, here)
            (tally-numbers_if (ltb 0 (pos_part fact_arg)) factorial_function fact
              (pos_part fact_arg))
      | inr further ↦
          let second : (u == 2) ≡ false = ground (arith, n2) in
          let third : (u == 3) ≡ false = ground (arith, n3) in
          rw (other, further, second, third) refl
    ]
  ]

module _ (a b : ℤ) (c : ℕ) where
  -- Which threads operate, and how often.
  record Counted (us : List ℕ) : Type 0 where
    first : occurs 2 us ≡ bit (asks a)
    second : occurs 3 us ≡ bit (asks b)
    others : (u : ℕ) → u ≢ 2 → u ≢ 3 → occurs u us ≡ 0

  two_or_three : (u : ℕ) (us : List ℕ) → Counted us → 1 ≤ occurs u us → (u ≡ 2) ⊎ (u ≡ 3)
  two_or_three u us k o = elim (Bool-cases (u == 2)) [
    | inl e ↦ inl (ground arith)
    | inr n2 ↦ elim (Bool-cases (u == 3)) [
      | inl e ↦ inr (ground arith)
      | inr n3 ↦ absurd (omega (arith, o, k.others u (λ e. ground arith) (λ e. ground arith)))
    ]
  ]

  counts : (u : ℕ) (us : List ℕ) → Counted us → 1 ≤ occurs u us → is 2 u + is 3 u ≡ 1
  counts u us k o = elim (two_or_three u us k o) [ inl e ↦ ground arith | inr e ↦ ground arith ]

  abbrev pub Serial : Type 0
  Serial = (paid a b ≡ some c) ⊎ (paid b a ≡ some c)

  follows-Serial : (us : List ℕ) → Counted us → follows (amounts a b) 500 us ≡ some c → Serial
  follows-Serial [] k e =
      let no_a : asks a ≡ false = ground (arith, k.first) in
      let no_b : asks b ≡ false = ground (arith, k.second) in
      inl (rw (idle a 500 no_a, idle b 500 no_b) e)
  follows-Serial (u ∷ []) k e =
      let (x, run, s) = bind_cases (update_balance (amounts a b u) 500) _ c e in
      elim (two_or_three u (u ∷ []) k (ground arith)) [
        | inl two ↦
            let no_b : asks b ≡ false = ground (arith, k.second) in
            let run' : update_balance a 500 ≡ some x =
              ap (λ v. update_balance (amounts a b v) 500) (sym two) ∙ run in
            inl (rw run' (idle b x no_b ∙ s))
        | inr three ↦
            let no_a : asks a ≡ false = ground (arith, k.first) in
            let run' : update_balance b 500 ≡ some x =
              ap (λ v. update_balance (amounts a b v) 500) (sym three) ∙ run in
            inl (rw (idle a 500 no_a) (run' ∙ s))
      ]
  follows-Serial (u ∷ v ∷ []) k e =
      let (x, run, rest) = bind_cases (update_balance (amounts a b u) 500) _ c e in
      let (y, run₂, s) = bind_cases (update_balance (amounts a b v) x) _ c rest in
      let first_of : (v : ℕ) → (u ≡ v) → update_balance (amounts a b v) 500 ≡ some x =
        λ v e. ap (λ v. update_balance (amounts a b v) 500) (sym e) ∙ run in
      let second_of : (w : ℕ) → (v ≡ w) → update_balance (amounts a b w) x ≡ some c =
        λ w e. ap (λ v. update_balance (amounts a b v) x) (sym e) ∙ run₂ ∙ s in
      let all = u ∷ v ∷ [] in
      elim (two_or_three u all k (ground arith)) [
        | inl two ↦ elim (two_or_three v all k (ground arith)) [
          | inl again ↦ absurd (ground (arith, k.first, bit_low (asks a)))
          | inr three ↦ inl (rw (first_of 2 two) (second_of 3 three))
        ]
        | inr three ↦ elim (two_or_three v all k (ground arith)) [
          | inl two ↦ inr (rw (first_of 3 three) (second_of 2 two))
          | inr again ↦ absurd (ground (arith, k.second, bit_low (asks b)))
        ]
      ]
  follows-Serial (u ∷ v ∷ w ∷ us) k e =
      let all = u ∷ v ∷ w ∷ us in
      absurd (
        omega (
          arith,
          counts u all k (ground arith),
          counts v all k (ground arith),
          counts w all k (ground arith),
          k.first,
          k.second,
          bit_low (asks a),
          bit_low (asks b),
        ))

-- From what is printed and its ledger.
pub printed-Serial :
    (fib_arg fact_arg bank1_arg bank2_arg : ℤ) (lines : List Line) (c : ℕ)
    → ((u : ℕ) → own u lines ≡ script fib_arg fact_arg bank1_arg bank2_arg u)
    → ledger (amounts bank1_arg bank2_arg) 500 lines ≡ some c
    → Serial bank1_arg bank2_arg c
printed-Serial fib_arg fact_arg bank1_arg bank2_arg lines c told e =
    let known : (u : ℕ)
        → occurs u (changed lines) ≡ tally (parts fib_arg fact_arg bank1_arg bank2_arg u) =
      λ u. occurs-changed u lines ∙ ap tally (told u) in
    follows-Serial bank1_arg bank2_arg c (changed lines)
      (record {
        first = known 2 ∙ tally_if (asks bank1_arg);
        second = known 3 ∙ tally_if (asks bank2_arg);
        others = λ u n2 n3. known u ∙ tally-others fib_arg fact_arg bank1_arg bank2_arg u n2 n3;
      })
      (ledger-follows (amounts bank1_arg bank2_arg) 500 lines c e)
