-- ===== src/Threads/Finish.antt =====
-- The threads run to the end (UserLevelThreadLibrary): `run` from a machine that satisfies the
-- invariant.
use system_design.Base.{
  ℕ, suc, ◌-◌, ◌^◌, ◌<◌, ◌≤◌, ◌≡◌, refl, ap, ◌∙◌, inl, inr, true, false, some, List, [], ◌∷◌, arith,
  length, ◌>>=◌,
}
use system_design.Threads.Spec.{Plan, load}
use system_design.Threads.Progress.{IsDone}
use system_design.Threads.Order.{threads}
use system_design.Threads.Machine.{Segment, Signals, Machine, step, run}
use system_design.Threads.Totals.{total}
use system_design.Threads.Steps.{left_of, Inv}
use system_design.Threads.Turns.{Next}
use system_design.Threads.Effects.{Effect, Ran}
use system_design.Threads.Progression.{step-Next}

run_halted : (arrivals : List Signals) (m : Machine) → m.halted ≡ true → run arrivals m ≡ some m
unfolding run
run_halted [] m e = refl
run_halted (a ∷ arrivals) m e = rw e refl

run-step :
    (a : Signals) (arrivals : List Signals) (m n : Machine)
    → m.halted ≡ false
    → step a m ≡ some n
    → run (a ∷ arrivals) m ≡ run arrivals n
unfolding run
run-step a arrivals m n e s =
    ap (λ h. elim h [ true ↦ some m | false ↦ (do m' ← step a m; run arrivals m') ]) e
    ∙ ap (λ o. do m' ← o; run arrivals m') s

total_done : (f : ℕ → ℕ) (p : Plan) → IsDone p → total f (threads p) ≡ 0
total_done f p d = rw (d.0, d.1) refl

pub Next-weaken : {limit v w : ℕ} {m : Machine} → v ≤ w → Next limit v m → Next limit w m
Next-weaken h x = record {
  plan = x.plan;
  loaded = x.loaded;
  fewer = omega (arith, x.fewer);
  bounded = x.bounded;
  outcome = x.outcome;
}

-- A property of the machines between two steps.
abbrev pub Kept : (Plan → Machine → Type 0) → ℕ → ℕ → Machine → Type 0
Kept P limit work m = (x : Next limit work m) × P x.plan m

abbrev pub Keeps : (Plan → Machine → Type 0) → ℕ → Type 0
Keeps P limit =
    (p q : Plan) (m n : Machine) (t : ℕ) (seg : Segment)
    → Inv limit p m
    → Ran p m t seg
    → Effect p q t seg.stop seg m n
    → P p m
    → P q n

-- However the signals come, a run never faults, each of its steps uses up a segment, and what every
-- step keeps holds in the end.
pub run-Kept :
    (P : Plan → Machine → Type 0) (limit : ℕ)
    → limit < 2 ^ 31
    → Keeps P limit
    → (arrivals : List Signals) (m : Machine) (work : ℕ) → Kept P limit (suc work) m
    → (n : Machine) × (run arrivals m ≡ some n) × Kept P limit (suc (work - length arrivals)) n
unfolding run Next-weaken
run-Kept P limit small keeps [] m work (x, k) = (m, refl, (Next-weaken (omega arith) x, k))
run-Kept P limit small keeps (a ∷ arrivals) m work (x, k) = elim x.outcome [
  | inl (halted, done) ↦ (
    m,
    run_halted (a ∷ arrivals) m halted,
    (
      record {
        plan = x.plan;
        loaded = x.loaded;
        fewer = omega (arith, total_done (left_of m) x.plan done);
        bounded = x.bounded;
        outcome = x.outcome;
      },
      k,
    ),
  )
  | inr inv ↦
      let (n, s, next, t, seg, ran, effect) = step-Next limit x.plan m a small inv in
      let (n', r, (next', k')) = run-Kept P limit small keeps arrivals n (work - 1) (
        Next-weaken (omega (arith, x.fewer, next.fewer)) next,
        keeps x.plan next.plan m n t seg inv ran effect k,
      ) in
      (n', run-step a arrivals m n inv.going s ∙ r, (Next-weaken (omega arith) next', k'))
]

-- No thread is left when all segments are used up.
pub run_ends :
    (P : Plan → Machine → Type 0) (limit : ℕ)
    → limit < 2 ^ 31
    → Keeps P limit
    → (arrivals : List Signals) (m : Machine) (work : ℕ) → Kept P limit (suc work) m
    → work ≤ length arrivals
    → (n : Machine) × (run arrivals m ≡ some n)
      × (n.halted ≡ true)
      × (q : Plan) × (n.sched ≡ load q)
      × (IsDone q × P q n)
run_ends P limit small keeps arrivals m work x enough =
    let (n, r, (next, k)) = run-Kept P limit small keeps arrivals m work x in
    elim next.outcome [
      | inl (halted, done) ↦ (n, r, halted, next.plan, next.loaded, (done, k))
      | inr inv ↦
          let (n', s, next', t, seg, ran, effect) =
            step-Next limit next.plan n (record { tstp = false; alrm = false }) small inv in
          absurd (omega (arith, next.fewer, next'.fewer, enough))
    ]
