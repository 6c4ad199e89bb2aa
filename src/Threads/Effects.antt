-- ===== src/Threads/Effects.antt =====
-- What a of the threads together changes (UserLevelThreadLibrary).
use system_design.Base.{ℕ, ◌+◌, ◌≡◌, some, List, [], ◌∷◌, ◌++◌, All, update}
use system_design.Threads.Spec.{Plan, running}
use system_design.Threads.Order.{threads}
use system_design.Threads.Machine.{
  Point, locked, Stop, yields, locks, exits, Segment, Line, caught_tstp, caught_alrm, Machine,
  segment,
}
use system_design.Threads.Totals.{occurs}
use system_design.Threads.Segments.{Outcome}

-- A line of `sighandler`.
abbrev pub IsSignal : Line → Type 0
IsSignal caught_tstp = Unit
IsSignal caught_alrm = Unit
IsSignal _ = ⊥

abbrev pub point_at : ℕ → Stop → (ℕ → Point) → ℕ → Point
point_at t (yields next) points = update points t next
point_at t locks points = update points t locked
point_at t exits points = points

-- The thread that is gone.
abbrev pub gone : ℕ → Stop → List ℕ
gone t exits = t ∷ []
gone t _ = []

-- From `m`, with the threads of `p`, to `n`, with the threads of `q`, when thread `t` has stopped after `seg`.
pub record Effect (p q : Plan) (t : ℕ) (stop : Stop) (seg : Segment) (m n : Machine) : Type 0 where
  pub functions : n.functions ≡ m.functions
  pub points : n.points ≡ point_at t stop m.points
  pub tcbs : n.tcbs ≡ update m.tcbs t seg.tcb
  pub balance : n.balance ≡ seg.balance
  pub signalled : List Line
  pub are_signals : All IsSignal signalled
  pub printed : n.printed ≡ (m.printed ++ seg.lines) ++ signalled
  pub still : (u : ℕ) → occurs u (gone t stop) + occurs u (threads q) ≡ occurs u (threads p)

-- The thread that runs, and its segment.
pub record Ran (p : Plan) (m : Machine) (t : ℕ) (seg : Segment) : Type 0 where
  pub runs : running p ≡ some t
  pub alone : occurs t (threads p) ≡ 1
  pub ran : segment (m.functions t) (m.points t) (m.tcbs t) m.balance m.sched.lock_owner ≡ some seg
  pub ends :
      Outcome (m.functions t) (m.points t) t (m.tcbs t) m.balance m.sched.lock_owner seg seg.stop
