-- ===== src/Threads/Steps.antt =====
-- Every of the threads together (UserLevelThreadLibrary): the invariant of a machine between
-- two steps, and that a keeps it.
use system_design.Base.{
  ℕ, ◌+◌, ◌<◌, ◌≤◌, ◌≡◌, ◌≢◌, refl, ap, sym, subst, ◌∙◌, inl, inr, Bool-cases, true, false, some,
  none, ◌==◌, arith, update,
}
use system_design.Threads.State.{Sched, exited}
use system_design.Threads.Spec.{Plan, load, running}
use system_design.Threads.Progress.{IsSound, Leaves}
use system_design.Threads.Order.{threads}
use system_design.Threads.Programs.{Tcb}
use system_design.Threads.Machine.{Function, Point, Segment, Signals, Machine, after, unlock}
use system_design.Threads.Totals.{total, is, occurs, total-append, total-changed, occurs-get}
use system_design.Threads.Holding.{Holds}
use system_design.Threads.Segments.{Fit, left, dues, Goes, Ends, unlock-some, unlock_keeps}

-- Thread `u` weighed: by how many segments it has left, or by what it may still pay in.
abbrev pub weigh : (Function → Point → Tcb → ℕ) → Machine → ℕ → ℕ
weigh w m u = w (m.functions u) (m.points u) (m.tcbs u)

abbrev pub left_of : Machine → ℕ → ℕ
left_of = weigh left

abbrev pub dues_of : Machine → ℕ → ℕ
dues_of = weigh dues

abbrev pub FitsOf : Machine → ℕ → Type 0
FitsOf m u = (m.tcbs u).id ≡ u × Fit (m.functions u) (m.points u) (m.tcbs u)

-- Between two steps, with the threads in the queues of `p` and `limit` at most in the bank and to come.
pub record Inv (limit : ℕ) (p : Plan) (m : Machine) : Type 0 where
  pub going : m.halted ≡ false
  pub loaded : m.sched ≡ load p
  pub sound : IsSound p
  pub holds : Holds none m.points p
  pub fits : (u : ℕ) → 1 ≤ occurs u (threads p) → FitsOf m u
  pub room : m.balance + total (dues_of m) (threads p) ≤ limit

-- The same for one control block: what another thread does leaves it alone.
pub FitsOf-same :
    (m n : Machine) (u : ℕ)
    → n.functions u ≡ m.functions u
    → n.points u ≡ m.points u
    → n.tcbs u ≡ m.tcbs u
    → FitsOf m u
    → FitsOf n u
FitsOf-same m n u f a c h = (
  ap (λ (t : Tcb). t.id) c ∙ h.0,
  subst (λ g. Fit g (n.points u) (n.tcbs u)) (sym f)
      (subst (λ x. Fit (m.functions u) x (n.tcbs u)) (sym a)
        (subst (λ x. Fit (m.functions u) (m.points u) x) (sym c) h.1)),
)

module _ (limit : ℕ) (p : Plan) (m : Machine) (inv : Inv limit p m) (t : ℕ) (r : running p ≡ some t)
    (arrived : Signals) where
  pub self : (t == t) ≡ true
  self = ground arith

  pub once : occurs t (threads p) ≡ 1
  once = omega (
    arith,
    inv.holds.single t,
    total-append (is t) p.ready p.waiting,
    occurs-get p.ready p.current t r,
  )

  module _ (seg : Segment) (next : Point)
      (g : Goes
        (m.functions t)
        (m.points t)
        t
        (m.tcbs t)
        m.balance
        m.sched.lock_owner
        next
        seg) where
    abbrev pub moved : Machine
    moved = record (after t seg arrived m) { points = update m.points t next }

    pub moved-loaded : moved.sched ≡ load p
    moved-loaded = ap (λ o. record m.sched { lock_owner = o }) g.owner ∙ inv.loaded

    pub moved-fits : (u : ℕ) → 1 ≤ occurs u (threads p) → FitsOf moved u
    moved-fits u h = elim (Bool-cases (t == u)) [
      | inl same ↦
          let e : t ≡ u = ground arith in
          let here : FitsOf moved t = rw self (g.id, g.fit) in subst (FitsOf moved) e here
      | inr other ↦ FitsOf-same m moved u refl (rw other refl) (rw other refl) (inv.fits u h)
    ]

    pub moved-total :
        (w : Function → Point → Tcb → ℕ)
        → total (weigh w moved) (threads p) + weigh w m t
          ≡ total (weigh w m) (threads p) + w (m.functions t) next seg.tcb
    moved-total w =
        let here : weigh w moved t ≡ w (m.functions t) next seg.tcb = rw self refl in
        total-changed (weigh w m) (weigh w moved) t (threads p) (λ u other. rw other refl) once
        ∙ ap (λ k. total (weigh w m) (threads p) + k) here

    pub moved-room : moved.balance + total (dues_of moved) (threads p) ≤ limit
    moved-room = omega (arith, moved-total dues, g.room, inv.room)

    pub moved-left : total (left_of moved) (threads p) < total (left_of m) (threads p)
    moved-left = omega (arith, moved-total left, g.fewer)

  module _ (seg : Segment)
      (g : Ends (m.functions t) (m.points t) t (m.tcbs t) m.balance m.sched.lock_owner seg) where
    abbrev pub ended : Machine
    ended = after t seg arrived m

    abbrev pub freed : Plan
    freed = record p { owner = unlock t p.owner }

    pub ended-loaded : ended.sched ≡ load freed
    ended-loaded =
        ap (λ o. record m.sched { lock_owner = o })
          (g.owner ∙ ap (λ (s : Sched). unlock t s.lock_owner) inv.loaded)
        ∙ ap (λ (s : Sched). record s { lock_owner = unlock t p.owner }) inv.loaded

    pub freed-IsSound : IsSound freed
    freed-IsSound = record {
      fits = record { current_ready = inv.sound.fits.current_ready; room = inv.sound.fits.room };
      owner_ready = λ u e. inv.sound.owner_ready u (unlock-some t u p.owner e).0;
    }

    pub freed-Holds : Holds (some t) m.points freed
    freed-Holds = record {
      single = inv.holds.single;
      inside_owns = λ u n q i.
          unlock_keeps t u p.owner (inv.holds.inside_owns u (λ e. cc) q i) (λ e. n (ap some e));
      owner_inside = λ u e. inv.holds.owner_inside u (unlock-some t u p.owner e).0;
      waits = inv.holds.waits;
    }

    pub freed-Leaves : Leaves exited freed
    freed-Leaves u e here = (unlock-some t u p.owner e).1 (ground (arith, r, here))

    -- Who is still there when `t` has gone.
    pub ended-total :
        (w : Function → Point → Tcb → ℕ)
        → total (weigh w ended) (threads p) + weigh w m t
          ≡ total (weigh w m) (threads p) + weigh w ended t
    ended-total w =
        total-changed (weigh w m) (weigh w ended) t (threads p) (λ u other. rw other refl) once

    pub ended-fits : (u : ℕ) → t ≢ u → 1 ≤ occurs u (threads p) → FitsOf ended u
    ended-fits u d h =
        let other : (t == u) ≡ false = ground (arith, d) in
        FitsOf-same m ended u refl refl (rw other refl) (inv.fits u h)
