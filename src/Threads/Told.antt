-- ===== src/Threads/Told.antt =====
-- However the threads are switched, each prints its own lines in its own order
-- (UserLevelThreadLibrary).
use mathlib.Core.List.{append_assoc, append-nil}
use system_design.Base.{
  ℕ, ◌≡◌, refl, ap, ap₂, sym, subst, ◌∙◌, inl, inr, Bool-cases, true, false, List, [], ◌∷◌, ◌++◌,
  All, update, arith, ◌==◌, ltb, if◌then◌else◌,
}
use system_design.Threads.Spec.{Plan}
use system_design.Threads.Order.{threads}
use system_design.Threads.Machine.{
  Point, locked, Stop, yields, locks, exits, Segment, Line, created, number, acquired, released,
  balance_changed, caught_tstp, caught_alrm, Machine,
}
use system_design.Threads.Totals.{occurs}
use system_design.Threads.Lines.{Mark, own, ahead, own-append}
use system_design.Threads.Segments.{Outcome}
use system_design.Threads.Effects.{IsSignal, point_at, gone, Effect}
use system_design.Threads.Finish.{Keeps}

own_signals : (u : ℕ) (xs : List Line) → All IsSignal xs → own u xs ≡ []
own_signals u [] h = refl
own_signals u (caught_tstp ∷ xs) h = own_signals u xs h.1
own_signals u (caught_alrm ∷ xs) h = own_signals u xs h.1
own_signals u (created v f ∷ xs) h = absurd h.0
own_signals u (number v x ∷ xs) h = absurd h.0
own_signals u (acquired v ∷ xs) h = absurd h.0
own_signals u (released v ∷ xs) h = absurd h.0
own_signals u (balance_changed v x y ∷ xs) h = absurd h.0

abbrev ahead_of : Machine → ℕ → List Mark
ahead_of m u = ahead (m.functions u) (m.points u) (m.tcbs u)

-- What thread `u` has still to print, nothing if it is not there.
abbrev pub remains : List ℕ → Machine → ℕ → List Mark
remains us m u = if ltb 0 (occurs u us) then ahead_of m u else []

-- What each thread has printed and has still to print.
abbrev pub Told : (ℕ → List Mark) → Plan → Machine → Type 0
Told given p m = (u : ℕ) → own u m.printed ++ remains (threads p) m u ≡ given u

module _ (p q : Plan) (t : ℕ) (seg : Segment) (m n : Machine) where
  -- Another thread.
  other_remains :
      (stop : Stop) (u : ℕ)
      → (t == u) ≡ false
      → Effect p q t stop seg m n
      → remains (threads q) n u ≡ remains (threads p) m u
  other_remains stop u other e =
      let points : n.points u ≡ m.points u = ap (λ g. g u) e.points ∙ at stop in
      let tcbs : n.tcbs u ≡ m.tcbs u = ap (λ g. g u) e.tcbs ∙ rw other refl in
      let functions : n.functions u ≡ m.functions u = ap (λ g. g u) e.functions in
      let there : occurs u (threads q) ≡ occurs u (threads p) =
        omega (arith, e.still u, away stop) in
      ap (λ k. if ltb 0 k then ahead_of n u else []) there
      ∙ ap (λ l. if ltb 0 (occurs u (threads p)) then l else [])
          (ap (λ f. ahead f (n.points u) (n.tcbs u)) functions
            ∙ ap (λ a. ahead (m.functions u) a (n.tcbs u)) points
            ∙ ap (ahead (m.functions u) (m.points u)) tcbs)
    where
      at : (stop : Stop) → point_at t stop m.points u ≡ m.points u
      at (yields next) = rw other refl
      at locks = rw other refl
      at exits = refl

      away : (stop : Stop) → occurs u (gone t stop) ≡ 0
      away (yields next) = refl
      away locks = refl
      away exits = ground arith

  -- The thread that ran.
  module _ (alone : occurs t (threads p) ≡ 1) where
    self : (t == t) ≡ true
    self = ground arith

    stays :
        (next : Point)
        → n.points ≡ update m.points t next
        → n.functions ≡ m.functions
        → n.tcbs ≡ update m.tcbs t seg.tcb
        → occurs t (threads q) ≡ 1
        → remains (threads q) n t ≡ ahead (m.functions t) next seg.tcb
    stays next points functions tcbs there =
        let point : n.points t ≡ next = ap (λ g. g t) points ∙ rw self refl in
        let tcb : n.tcbs t ≡ seg.tcb = ap (λ g. g t) tcbs ∙ rw self refl in
        ap (λ k. if ltb 0 k then ahead_of n t else []) there
        ∙ ap (λ f. ahead (f t) (n.points t) (n.tcbs t)) functions
        ∙ ap (λ a. ahead (m.functions t) a (n.tcbs t)) point
        ∙ ap (ahead (m.functions t) next) tcb

    turned :
        (stop : Stop)
        → Outcome (m.functions t) (m.points t) t (m.tcbs t) m.balance m.sched.lock_owner seg stop
        → Effect p q t stop seg m n
        → own t seg.lines ++ remains (threads q) n t ≡ ahead_of m t
    turned (yields next) (g, _) e =
        ap (λ l. own t seg.lines ++ l)
          (stays next e.points e.functions e.tcbs (omega (arith, e.still t, alone)))
        ∙ g.told
    turned locks (g, _) e =
        ap (λ l. own t seg.lines ++ l)
          (stays locked e.points e.functions e.tcbs (omega (arith, e.still t, alone)))
        ∙ g.told
    turned exits g e =
        let left : occurs t (threads q) ≡ 0 = ground (arith, e.still t, alone) in
        ap (λ k. own t seg.lines ++ (if ltb 0 k then ahead_of n t else [])) left
        ∙ append-nil _
        ∙ g.told

  others_of :
      (stop : Stop)
      → Outcome (m.functions t) (m.points t) t (m.tcbs t) m.balance m.sched.lock_owner seg stop
      → (v : ℕ) → (t == v) ≡ false
      → own v seg.lines ≡ []
  others_of (yields next) (g, _) = g.others
  others_of locks (g, _) = g.others
  others_of exits g = g.others

  own-printed :
      (stop : Stop) (u : ℕ)
      → Effect p q t stop seg m n
      → own u n.printed ≡ own u m.printed ++ own u seg.lines
  own-printed stop u e =
      ap (own u) e.printed
      ∙ own-append u (m.printed ++ seg.lines) e.signalled
      ∙ ap₂ ◌++◌ (own-append u m.printed seg.lines) (own_signals u e.signalled e.are_signals)
      ∙ append-nil _

pub step-Told : (given : ℕ → List Mark) (limit : ℕ) → Keeps (Told given) limit
step-Told given limit p q m n t seg inv ran e told u =
    ap (λ l. l ++ remains (threads q) n u) (own-printed p q t seg m n seg.stop u e)
    ∙ append_assoc (own u m.printed) (own u seg.lines) (remains (threads q) n u)
    ∙ ap (λ l. own u m.printed ++ l) rest
    ∙ told u
  where
    rest : own u seg.lines ++ remains (threads q) n u ≡ remains (threads p) m u
    rest = elim (Bool-cases (t == u)) [
      | inl same ↦
          let here : t ≡ u = ground arith in
          subst (λ v. own v seg.lines ++ remains (threads q) n v ≡ remains (threads p) m v) here
            (turned p q t seg m n ran.alone seg.stop ran.ends e
              ∙ sym (ap (λ k. if ltb 0 k then ahead_of m t else []) ran.alone))
      | inr other ↦
          ap₂ ◌++◌ (others_of p q t seg m n seg.stop ran.ends u other)
            (other_remains p q t seg m n seg.stop u other e)
    ]
