-- ===== src/Threads/Ledger.antt =====
-- The lines of the bank operations as a ledger (UserLevelThreadLibrary/threads.c).
use mathlib.Core.Option.{some-injective}
use system_design.Base.{
  ℕ, ◌≤◌, ◌≡◌, refl, ap, sym, subst, ◌∙◌, inl, inr, ℤ, Bool-cases, true, ◌&&◌, Option, Option-cases,
  some, List, [], ◌∷◌, ◌++◌, All, update, arith, ◌==◌, ◌>>=◌, ◌>>◌, guard, bind_cases,
}
use system_design.Threads.Spec.{Plan}
use system_design.Threads.Order.{threads}
use system_design.Threads.Programs.{Tcb, fibonacci_iteration, factorial_iteration}
use system_design.Threads.Machine.{
  Function, fibonacci_function, factorial_function, bank_function, Point, set_up, looped, locked,
  updating, releasing, Segment, Line, created, number, acquired, released, balance_changed,
  caught_tstp, caught_alrm, Machine, segment, bank_segment, fibonacci_round, factorial_round,
  update_balance,
}
use system_design.Threads.Totals.{occurs}
use system_design.Threads.Effects.{IsSignal}
use system_design.Threads.Finish.{Keeps}

module _ (amounts : ℕ → ℤ) where
  -- The line of a bank operation starts at the balance so far and follows from it; `amounts` are the
  -- arguments of the threads.
  abbrev pub entry : ℕ → Line → Option ℕ
  entry b (balance_changed u before now) = do
    b' ← update_balance (amounts u) b
    guard (b == before && b' == now)
    some now
  entry b line = some b

  abbrev pub ledger : ℕ → List Line → Option ℕ
  ledger b [] = some b
  ledger b (line ∷ lines) = do b' ← entry b line; ledger b' lines

  pub ledger-append :
      (b : ℕ) (xs ys : List Line) → ledger b (xs ++ ys) ≡ (do b' ← ledger b xs; ledger b' ys)
  ledger-append b [] ys = refl
  ledger-append b (x ∷ xs) ys = elim (Option-cases (entry b x)) [
    | inl e ↦ rw e refl
    | inr (b', e) ↦ rw e (ledger-append b' xs ys)
  ]

  ledger_signals : (b : ℕ) (xs : List Line) → All IsSignal xs → ledger b xs ≡ some b
  ledger_signals b [] h = refl
  ledger_signals b (caught_tstp ∷ xs) h = ledger_signals b xs h.1
  ledger_signals b (caught_alrm ∷ xs) h = ledger_signals b xs h.1
  ledger_signals b (created u f ∷ xs) h = absurd h.0
  ledger_signals b (number u v ∷ xs) h = absurd h.0
  ledger_signals b (acquired u ∷ xs) h = absurd h.0
  ledger_signals b (released u ∷ xs) h = absurd h.0
  ledger_signals b (balance_changed u x y ∷ xs) h = absurd h.0

  module _ (b : ℕ) where
    abbrev Entered : Segment → Type 0
    Entered seg = ledger b seg.lines ≡ some seg.balance

    fibonacci-Entered :
        (t : Tcb) (o : Option ℕ) (seg : Segment) → fibonacci_round t b o ≡ some seg → Entered seg
    unfolding fibonacci_round
    fibonacci-Entered t o seg e =
        let (t', r, s) = bind_cases (fibonacci_iteration t) _ seg e in
        subst Entered (some-injective _ _ s) refl

    factorial-Entered :
        (t : Tcb) (o : Option ℕ) (seg : Segment) → factorial_round t b o ≡ some seg → Entered seg
    unfolding factorial_round
    factorial-Entered t o seg e =
        let (t', r, s) = bind_cases (factorial_iteration t) _ seg e in
        subst Entered (some-injective _ _ s) refl

    bank-Entered :
        (at : Point) (t : Tcb) (o : Option ℕ) (seg : Segment)
        → t.arg ≡ amounts t.id
        → bank_segment at t b o ≡ some seg
        → Entered seg × (seg.tcb ≡ t)
    unfolding bank_segment
    bank-Entered set_up t o seg a e =
        subst (λ s. Entered s × (s.tcb ≡ t)) (some-injective _ _ e) (refl, refl)
    bank-Entered locked t o seg a e =
        subst (λ s. Entered s × (s.tcb ≡ t)) (some-injective _ _ e) (refl, refl)
    bank-Entered releasing t o seg a e =
        subst (λ s. Entered s × (s.tcb ≡ t)) (some-injective _ _ e) (refl, refl)
    bank-Entered looped t o seg a e = absurd (cc)
    bank-Entered updating t o seg a e =
        let (b', r, s) = bind_cases (update_balance t.arg b) _ seg e in
        let same : (b == b && b' == b') ≡ true = ground arith in
        subst (λ s. Entered s × (s.tcb ≡ t)) (some-injective _ _ s) (rw (← a, r, same) refl, refl)

    segment-Entered :
        (f : Function) (at : Point) (t : Tcb) (o : Option ℕ) (seg : Segment)
        → (f ≡ bank_function → t.arg ≡ amounts t.id)
        → segment f at t b o ≡ some seg
        → Entered seg × (f ≡ bank_function → seg.tcb ≡ t)
    unfolding segment
    segment-Entered fibonacci_function set_up t o seg a e =
        (fibonacci-Entered _ o seg e, λ n. absurd (cc))
    segment-Entered fibonacci_function looped t o seg a e =
        (fibonacci-Entered _ o seg e, λ n. absurd (cc))
    segment-Entered factorial_function set_up t o seg a e =
        (factorial-Entered _ o seg e, λ n. absurd (cc))
    segment-Entered factorial_function looped t o seg a e =
        (factorial-Entered _ o seg e, λ n. absurd (cc))
    segment-Entered bank_function at t o seg a e =
        let (x, y) = bank-Entered at t o seg (a refl) e in (x, λ _. y)
    segment-Entered fibonacci_function locked t o seg a e = absurd (cc)
    segment-Entered fibonacci_function updating t o seg a e = absurd (cc)
    segment-Entered fibonacci_function releasing t o seg a e = absurd (cc)
    segment-Entered factorial_function locked t o seg a e = absurd (cc)
    segment-Entered factorial_function updating t o seg a e = absurd (cc)
    segment-Entered factorial_function releasing t o seg a e = absurd (cc)

  -- The ledger of what has been printed ends at the balance.
  pub record Account (p : Plan) (m : Machine) : Type 0 where
    pub balanced : ledger 500 m.printed ≡ some m.balance
    pub arg :
        (u : ℕ)
        → 1 ≤ occurs u (threads p)
        → m.functions u ≡ bank_function
        → (m.tcbs u).arg ≡ amounts u

  arg_kept :
      (t u : ℕ) (s : Tcb) (tcbs : ℕ → Tcb)
      → (t ≡ u → s ≡ tcbs t)
      → (tcbs u).arg ≡ amounts u
      → (update tcbs t s u).arg ≡ amounts u
  arg_kept t u s tcbs same known = elim (Bool-cases (t == u)) [
    | inl this ↦
        let e : t ≡ u = ground arith in
        rw this (ap (λ (s : Tcb). s.arg) (same e) ∙ ap (λ v. (tcbs v).arg) e ∙ known)
    | inr other ↦ rw other known
  ]

  pub step-Account : (limit : ℕ) → Keeps Account limit
  step-Account limit p q m n t seg inv ran effect k =
      let here : 1 ≤ occurs t (threads p) = omega (arith, ran.alone) in
      let (entered, same) =
        segment-Entered m.balance (m.functions t) (m.points t) (m.tcbs t) m.sched.lock_owner seg
          (λ f. k.arg t here f ∙ ap amounts (sym (inv.fits t here).0)) ran.ran in
      record {
        balanced =
            ap (ledger 500) effect.printed
            ∙ ledger-append 500 (m.printed ++ seg.lines) effect.signalled
            ∙ ap (λ o. do b ← o; ledger b effect.signalled)
                (ledger-append 500 m.printed seg.lines
                  ∙ ap (λ o. do b ← o; ledger b seg.lines) k.balanced
                  ∙ entered)
            ∙ ledger_signals seg.balance effect.signalled effect.are_signals
            ∙ ap some (sym effect.balance);
        arg = λ u h f.
            let bank : m.functions u ≡ bank_function = sym (ap (λ g. g u) effect.functions) ∙ f in
            let known = k.arg u (omega (arith, effect.still u, h)) bank in
            ap (λ g. (g u).arg) effect.tcbs
            ∙ arg_kept t u seg.tcb m.tcbs (λ e. same (ap m.functions e ∙ bank)) known;
      }
