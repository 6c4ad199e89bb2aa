-- ===== src/Threads/Progression.antt =====
-- Every step of the threads together leads on (UserLevelThreadLibrary).
use system_design.Base.{
  ℕ, ◌+◌, ◌^◌, ◌<◌, ◌≤◌, ◌≡◌, ◌≢◌, refl, ap, sym, ◌∙◌, inl, inr, Bool-cases, true, false, Option,
  some, none, List, [], ◌∷◌, ◌++◌, if◌then◌else◌, arith, All, get_elem?,
}
use system_design.Threads.State.{Sched, Jump, called, yielded, locking, exited, read}
use system_design.Threads.Spec.{Plan, running, schedule}
use system_design.Threads.Arrays.{read-lt}
use system_design.Threads.Refinement.{running-lt}
use system_design.Threads.Progress.{IsSound, Leaves}
use system_design.Threads.Order.{threads, leavers, schedule-perm}
use system_design.Threads.Machine.{
  Point, locked, Stop, yields, locks, exits, Segment, Signals, Line, Machine, enter_scheduler,
  sighandler, thread_yield, stop_at, after, step, caught_tstp, caught_alrm,
}
use system_design.Threads.Totals.{
  total, is, occurs, total-append, total-perm, total_member, occurs-get,
}
use system_design.Threads.Holding.{inside, Holds, yielded-Holds, locked-Holds, exited-Holds}
use system_design.Threads.Segments.{left, dues, Outcome, Goes, Ends}
use system_design.Threads.Rounds.{segment-Runs}
use mathlib.Core.List.{append-nil}
use system_design.Threads.Effects.{IsSignal, point_at, gone, Effect, Ran}
use system_design.Threads.Turns.{Next, enter-Next, moved-Holds, asks-Holds}
use system_design.Threads.Steps.{
  self, left_of, dues_of, Inv, once, moved, moved-loaded, moved-fits, moved-room, moved-left, ended,
  freed, ended-loaded, freed-IsSound, freed-Holds, freed-Leaves, ended-total, ended-fits,
}

-- A jump that no thread leaves by keeps every sum over the threads.
kept :
    (see : Jump) (p : Plan) (t : ℕ)
    → IsSound p
    → running p ≡ some t
    → leavers see t ≡ []
    → (f : ℕ → ℕ) → total f (threads (schedule see p)) ≡ total f (threads p)
kept see p t s r stays f = sym (
    total-perm f (schedule-perm see p t s r)
    ∙ ap (λ l. total f (l ++ threads (schedule see p))) stays)

-- The three branches of `thread_yield`.
module _ (m : Machine) where
  abbrev stopped : Option Machine
  unfolding sighandler
  stopped = enter_scheduler yielded (sighandler caught_tstp m)

  abbrev alarmed : Option Machine
  unfolding sighandler
  alarmed = enter_scheduler yielded (sighandler caught_alrm m)

  thread_yield-tstp : m.pending.tstp ≡ true → thread_yield m ≡ stopped
  unfolding thread_yield
  thread_yield-tstp e =
      ap (λ x. if x then stopped else if m.pending.alrm then alarmed else some m) e

  thread_yield-alrm : m.pending.tstp ≡ false → m.pending.alrm ≡ true → thread_yield m ≡ alarmed
  unfolding thread_yield
  thread_yield-alrm e f =
      ap (λ x. if x then stopped else if m.pending.alrm then alarmed else some m) e
      ∙ ap (λ x. if x then alarmed else some m) f

  thread_yield_quiet : m.pending.tstp ≡ false → m.pending.alrm ≡ false → thread_yield m ≡ some m
  unfolding thread_yield
  thread_yield_quiet e f =
      ap (λ x. if x then stopped else if m.pending.alrm then alarmed else some m) e
      ∙ ap (λ x. if x then alarmed else some m) f

module _ (limit : ℕ) (p : Plan) (m : Machine) (inv : Inv limit p m) (t : ℕ) (r : running p ≡ some t)
    (arrived : Signals) (seg : Segment) where
  abbrev work : ℕ
  work = total (left_of m) (threads p)

  -- The next machine, and what is new in it.
  abbrev Led : Stop → Machine → Type 0
  Led stop n = (next : Next limit work n) × Effect p next.plan t stop seg m n

  -- The thread asks for the lock, or yields to a signal.
  module _ (next : Point)
      (g : Goes
        (m.functions t)
        (m.points t)
        t
        (m.tcbs t)
        m.balance
        m.sched.lock_owner
        next
        seg) where
    abbrev n₀ : Machine
    n₀ = moved limit p m inv t r arrived seg next g

    jumps :
        (see : Jump) (stop : Stop) (pending : Signals) (printed signalled : List Line)
        → see ≢ called
        → leavers see t ≡ []
        → Leaves see p
        → Holds none n₀.points (schedule see p)
        → point_at t stop m.points ≡ n₀.points
        → gone t stop ≡ []
        → All IsSignal signalled
        → printed ≡ n₀.printed ++ signalled
        → (n : Machine) × (enter_scheduler see (record n₀ { pending = pending; printed = printed })
            ≡ some n)
          × Led stop n
    jumps see stop pending printed signalled jump stays leaves holds points stay quiet lines =
        let same = kept see p t inv.sound r stays in
        let (n, entered) =
          enter-Next see limit work p (record n₀ { pending = pending; printed = printed }) jump
            inv.sound leaves (moved-loaded limit p m inv t r arrived seg next g) holds
            (λ u h. moved-fits limit p m inv t r arrived seg next g u (omega (arith, same (is u))))
            (omega (arith, same (dues_of n₀), moved-room limit p m inv t r arrived seg next g))
            (omega (arith, same (left_of n₀), moved-left limit p m inv t r arrived seg next g)) in
        (
          n,
          entered.jump,
          (
            entered.next,
            record {
              functions = ap (λ (k : Machine). k.functions) entered.frame;
              points = ap (λ (k : Machine). k.points) entered.frame ∙ sym points;
              tcbs = ap (λ (k : Machine). k.tcbs) entered.frame;
              balance = ap (λ (k : Machine). k.balance) entered.frame;
              signalled = signalled;
              are_signals = quiet;
              printed = ap (λ (k : Machine). k.printed) entered.frame ∙ lines;
              still = λ u. omega (
                arith,
                same (is u),
                ap (λ q. occurs u (threads q)) entered.plan,
                ap (occurs u) stay,
              );
            },
          ),
        )

    -- `thread_yield`
    yields-Next :
        inside next ≡ inside (m.points t)
        → (n : Machine) × (thread_yield n₀ ≡ some n) × Led (yields next) n
    unfolding sighandler
    yields-Next same =
        let held = moved-Holds m.points p t r inv.holds next same in
        let onward : (pending : Signals) (line : Line)
            → IsSignal line
            → (n : Machine) × (enter_scheduler yielded
                  (record n₀ { pending = pending; printed = n₀.printed ++ line ∷ [] })
                ≡ some n)
              × Led (yields next) n =
          λ pending line signal.
            jumps yielded (yields next) pending (n₀.printed ++ line ∷ []) (line ∷ []) (λ e. cc e)
              refl tt (yielded-Holds n₀.points p held) refl refl (signal, tt) refl in
        elim (Bool-cases n₀.pending.tstp) [
          | inl stop ↦
              let (n, run, onwards) = onward (record n₀.pending { tstp = false }) caught_tstp tt in
              (n, thread_yield-tstp n₀ stop ∙ run, onwards)
          | inr no_stop ↦ elim (Bool-cases n₀.pending.alrm) [
            | inl alarm ↦
                let (n, run, onwards) =
                  onward (record n₀.pending { alrm = false }) caught_alrm tt in
                (n, thread_yield-alrm n₀ no_stop alarm ∙ run, onwards)
            | inr quiet ↦ (n₀, thread_yield_quiet n₀ no_stop quiet, unmoved held)
          ]
        ]
      where
        -- No signal is pending.
        unmoved : Holds none n₀.points p → Led (yields next) n₀
        unmoved held = (
          record {
            plan = p;
            loaded = moved-loaded limit p m inv t r arrived seg next g;
            fewer = moved-left limit p m inv t r arrived seg next g;
            bounded = omega (arith, moved-room limit p m inv t r arrived seg next g);
            outcome = inr (record {
              going = inv.going;
              loaded = moved-loaded limit p m inv t r arrived seg next g;
              sound = inv.sound;
              holds = held;
              fits = moved-fits limit p m inv t r arrived seg next g;
              room = moved-room limit p m inv t r arrived seg next g;
            });
          },
          record {
            functions = refl;
            points = refl;
            tcbs = refl;
            balance = refl;
            signalled = [];
            are_signals = tt;
            printed = sym (append-nil _);
            still = λ u. omega arith;
          },
        )

  -- `lock`
  locks-Next :
      (g : Goes (m.functions t) (m.points t) t (m.tcbs t) m.balance m.sched.lock_owner locked seg)
      → inside (m.points t) ≡ false
      → (n : Machine) × (enter_scheduler locking (n₀ locked g) ≡ some n) × Led locks n
  locks-Next g out =
      jumps locked g locking locks (n₀ locked g).pending (n₀ locked g).printed [] (λ e. cc e) refl
        (λ u o here.
          let same : t ≡ u = ground (arith, r, here) in
          cc (inv.holds.owner_inside t (o ∙ ap some (sym same)), out))
        (locked-Holds (n₀ locked g).points p t inv.sound r
          (rw (self limit p m inv t r arrived) refl) (asks-Holds m.points p t r inv.holds))
        refl refl tt (sym (append-nil _))

  -- `thread_exit`
  exits-Next :
      (g : Ends (m.functions t) (m.points t) t (m.tcbs t) m.balance m.sched.lock_owner seg)
      → (n : Machine) × (enter_scheduler exited (ended limit p m inv t r arrived seg g) ≡ some n)
        × Led exits n
  exits-Next g =
      let q₀ = freed limit p m inv t r arrived seg g in
      let q = schedule exited q₀ in
      let n₁ = ended limit p m inv t r arrived seg g in
      let sound = freed-IsSound limit p m inv t r arrived seg g in
      let without : (f : ℕ → ℕ) → total f (threads p) ≡ f t + total f (threads q) =
        λ f. total-perm f (schedule-perm exited q₀ t sound r) in
      let totals = ended-total limit p m inv t r arrived seg g in
      let alone = once limit p m inv t r arrived in
      let (n, entered) =
        enter-Next exited limit work q₀ n₁ (λ e. cc e) sound
          (freed-Leaves limit p m inv t r arrived seg g)
          (ended-loaded limit p m inv t r arrived seg g)
          (exited-Holds m.points q₀ t sound r (freed-Holds limit p m inv t r arrived seg g))
          (λ u h.
            ended-fits limit p m inv t r arrived seg g u
              (λ e. ground (arith, without (is t), alone, h, ap (λ v. occurs v (threads q)) e))
              (omega (arith, without (is u))))
          (omega (arith, without (dues_of n₁), totals dues, g.room, inv.room))
          (omega (arith, without (left_of n₁), totals left, g.last)) in
      (
        n,
        entered.jump,
        (
          entered.next,
          record {
            functions = ap (λ (k : Machine). k.functions) entered.frame;
            points = ap (λ (k : Machine). k.points) entered.frame;
            tcbs = ap (λ (k : Machine). k.tcbs) entered.frame;
            balance = ap (λ (k : Machine). k.balance) entered.frame;
            signalled = [];
            are_signals = tt;
            printed = ap (λ (k : Machine). k.printed) entered.frame ∙ sym (append-nil _);
            still = λ u. omega (arith, without (is u), ap (λ q. occurs u (threads q)) entered.plan);
          },
        ),
      )

  -- Whatever the segment stops at.
  stop-Next :
      (stop : Stop)
      → Outcome (m.functions t) (m.points t) t (m.tcbs t) m.balance m.sched.lock_owner seg stop
      → (n : Machine) × (stop_at t stop (after t seg arrived m) ≡ some n) × Led stop n
  unfolding stop_at
  stop-Next (yields next) (g, same) = yields-Next next g same
  stop-Next locks (g, out) = locks-Next g out
  stop-Next exits g = exits-Next g

-- From the invariant a step never faults: it halts with no thread left, or leads to the invariant
-- with fewer segments left.
pub step-Next :
    (limit : ℕ) (p : Plan) (m : Machine) (arrived : Signals)
    → limit < 2 ^ 31
    → Inv limit p m
    → (n : Machine) × (step arrived m ≡ some n)
      × (next : Next limit (total (left_of m) (threads p)) n) × (t : ℕ) × (seg : Segment) × Ran p m
          t seg
      × Effect p next.plan t seg.stop seg m n
unfolding step
step-Next limit p m arrived small inv =
    let (t, r) = running-lt p.ready p.current inv.sound.fits.current_ready in
    let here : 1 ≤ occurs t (threads p) =
      omega (arith, total-append (is t) p.ready p.waiting, occurs-get p.ready p.current t r) in
    let fit = inv.fits t here in
    let (seg, run, outcome) =
      segment-Runs (m.functions t) (m.points t) t (m.tcbs t) m.balance m.sched.lock_owner fit.0
        fit.1
        (λ o. inv.holds.owner_inside t (sym (ap (λ (s : Sched). s.lock_owner) inv.loaded) ∙ o))
        (omega (arith, total_member (dues_of m) t (threads p) here, inv.room)) in
    let (n, stopped, (next, effect)) = stop-Next limit p m inv t r arrived seg seg.stop outcome in
    let read_running : read m.sched.ready_queue m.sched.rq_current ≡ some (some t) =
      ap (λ (s : Sched). read s.ready_queue s.rq_current) inv.loaded
      ∙ read-lt (get_elem? p.ready) p.current
          (omega (arith, inv.sound.fits.room, inv.sound.fits.current_ready))
      ∙ ap some r in
    (
      n,
      rw (read_running, run) stopped,
      next,
      t,
      seg,
      record { runs = r; alone = once limit p m inv t r arrived; ran = run; ends = outcome },
      effect,
    )
