-- ===== src/Threads/Turns.antt =====
-- A of the threads together, from the of one thread to the next thread
-- (UserLevelThreadLibrary).
use system_design.Base.{
  ℕ, ◌+◌, ◌<◌, ◌≤◌, ◌≡◌, ◌≢◌, ◌⊎◌, refl, ap, sym, ◌∙◌, inl, inr, Bool-cases, true, false, some,
  none, ◌==◌, arith, update, get_elem?,
}
use system_design.Threads.State.{Jump, called}
use system_design.Threads.Spec.{Plan, load, running, schedule}
use system_design.Threads.Progress.{IsSound, IsDone, Leaves, scheduler_total, schedule-IsSound}
use system_design.Threads.Order.{threads}
use system_design.Threads.Machine.{Point, locked, Machine, enter_scheduler}
use system_design.Threads.Totals.{total, occurs, occurs-get}
use system_design.Threads.Holding.{inside, Holds}
use system_design.Threads.Steps.{left_of, dues_of, FitsOf, Inv}

-- After a step: no thread is left, or the invariant holds again; and fewer segments are left.
pub record Next (limit work : ℕ) (m : Machine) : Type 0 where
  pub plan : Plan
  pub loaded : m.sched ≡ load plan
  pub fewer : total (left_of m) (threads plan) < work
  pub bounded : m.balance ≤ limit
  pub outcome : ((m.halted ≡ true) × IsDone plan) ⊎ Inv limit plan m

-- What `siglongjmp(sched_buf, see)` leads to: it changes nothing but the scheduler's data.
pub record Entered (see : Jump) (limit work : ℕ) (p : Plan) (m n : Machine) : Type 0 where
  pub jump : enter_scheduler see m ≡ some n
  pub next : Next limit work n
  pub plan : next.plan ≡ schedule see p
  pub frame : n ≡ record m { sched = n.sched; halted = n.halted }

-- A jump of a sound plan leads to a machine that has halted or runs on.
pub enter-Next :
    (see : Jump) (limit work : ℕ) (p : Plan) (m : Machine)
    → see ≢ called
    → IsSound p
    → Leaves see p
    → m.sched ≡ load p
    → Holds none m.points (schedule see p)
    → ((u : ℕ) → 1 ≤ occurs u (threads (schedule see p)) → FitsOf m u)
    → m.balance + total (dues_of m) (threads (schedule see p)) ≤ limit
    → total (left_of m) (threads (schedule see p)) < work
    → (n : Machine) × Entered see limit work p m n
unfolding enter_scheduler
enter-Next see limit work p m jump s l e h fits room fewer =
    let q = schedule see p in
    let bound : m.balance ≤ limit = omega (arith, room) in
    elim (scheduler_total see p jump s l) [
      | inl (done, run) ↦ (
        record m { sched = load q; halted = true },
        record {
          jump = rw (e, run) refl;
          next = record {
            plan = q;
            loaded = refl;
            fewer = fewer;
            bounded = bound;
            outcome = inl (refl, done);
          };
          plan = refl;
          frame = refl;
        },
      )
      | inr (u, r, run) ↦
          let sound : IsSound q = elim (schedule-IsSound see p jump s l) [
            | inl done ↦ absurd (cc (r, ap (λ l. get_elem? l q.current) done.0))
            | inr sound ↦ sound
          ] in
          (
            record m { sched = load q; halted = false },
            record {
              jump = rw (e, run) refl;
              next = record {
                plan = q;
                loaded = refl;
                fewer = fewer;
                bounded = bound;
                outcome = inr (record {
                  going = refl;
                  loaded = refl;
                  sound = sound;
                  holds = record {
                    single = h.single;
                    inside_owns = h.inside_owns;
                    owner_inside = h.owner_inside;
                    waits = h.waits;
                  };
                  fits = fits;
                  room = room;
                });
              };
              plan = refl;
              frame = refl;
            },
          )
    ]

module _ (points : ℕ → Point) (p : Plan) (t : ℕ) (r : running p ≡ some t)
    (h : Holds none points p) where
  running_waits_not : (u : ℕ) → 1 ≤ occurs u p.waiting → (t == u) ≡ false
  running_waits_not u o = elim (Bool-cases (t == u)) [
    | inl same ↦
        let e : t ≡ u = ground arith in
        absurd (omega (arith, h.single u, occurs-get p.ready p.current u (r ∙ ap some e)))
    | inr other ↦ other
  ]

  waits_still : (next : Point) (u : ℕ) → 1 ≤ occurs u p.waiting → update points t next u ≡ locked
  waits_still next u o = rw (running_waits_not u o) (h.waits u o)

  -- A thread that goes on inside or outside of the bank as before.
  pub moved-Holds :
      (next : Point) → inside next ≡ inside (points t) → Holds none (update points t next) p
  moved-Holds next same = record {
    single = h.single;
    inside_owns = λ u n o i. h.inside_owns u n o (sym (side u) ∙ i);
    owner_inside = λ u o. side u ∙ h.owner_inside u o;
    waits = waits_still next;
  }
    where
      side : (u : ℕ) → inside (update points t next u) ≡ inside (points u)
      side u = elim (Bool-cases (t == u)) [
        | inl here ↦ let e : t ≡ u = ground arith in rw here (same ∙ ap (λ v. inside (points v)) e)
        | inr other ↦ rw other refl
      ]

  -- A thread that asks for the lock.
  pub asks-Holds : Holds (some t) (update points t locked) p
  asks-Holds = record {
    single = h.single;
    inside_owns = λ u n o i.
        let other : (t == u) ≡ false = ground (arith, n) in
        h.inside_owns u (λ e. cc) o (rw other at i);
    owner_inside = λ u o. elim (Bool-cases (t == u)) [
      | inl here ↦ rw here refl
      | inr other ↦ rw other (h.owner_inside u o)
    ];
    waits = waits_still locked;
  }
