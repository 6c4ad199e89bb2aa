-- ===== src/Threads/Holding.antt =====
-- The lock of the bank across a jump into the scheduler: who may be inside the bank.
use system_design.Base.{
  ℕ, ◌+◌, ◌≤◌, ◌≡◌, ◌≢◌, refl, ap, sym, subst, ◌∙◌, inl, inr, Bool, Bool-cases, true, false, Option,
  Option-cases, some, none, List, [], ◌∷◌, ◌++◌, ◌==◌, arith,
}
use system_design.Threads.State.{yielded, locking, exited}
use system_design.Threads.Spec.{
  Plan, grant, serve, take_out, depart, running, park, conclude, schedule, conclude_free,
  conclude_held,
}
use system_design.Threads.Progress.{IsSound, serve-none, serve-some, serve-Served}
use system_design.Threads.Arrays.{park-running}
use system_design.Threads.Machine.{Point, set_up, looped, locked}
use system_design.Threads.Totals.{is, occurs, total-append, total-take_out}

-- From the return of `lock` to `thread_exit`.
abbrev pub inside : Point → Bool
inside set_up = false
inside looped = false
inside _ = true

-- The lock and the points of the threads. Thread `but` may be inside though it does not own the lock:
-- it has just asked for it or given it back.
pub record Holds (but : Option ℕ) (points : ℕ → Point) (p : Plan) : Type 0 where
  pub single : (u : ℕ) → occurs u p.ready + occurs u p.waiting ≤ 1
  pub inside_owns :
      (u : ℕ) → but ≢ some u → 1 ≤ occurs u p.ready → inside (points u) ≡ true → p.owner ≡ some u
  pub owner_inside : (u : ℕ) → p.owner ≡ some u → inside (points u) ≡ true
  pub waits : (u : ℕ) → 1 ≤ occurs u p.waiting → points u ≡ locked

module _ (but : Option ℕ) (points : ℕ → Point) where
  grant-Holds :
      (ws : List ℕ) (p : Plan)
      → p.waiting ≡ ws
      → p.owner ≡ none
      → Holds but points p
      → Holds but points (grant ws p)
  grant-Holds [] p e o h = h
  grant-Holds (w ∷ ws) p e o h = record {
    single = λ u. omega (arith, h.single u, front u, back u);
    inside_owns = λ u n r i. elim (Bool-cases (u == w)) [
      | inl same ↦ ground arith
      | inr other ↦ absurd (cc (o, h.inside_owns u n (ground (arith, back u)) i))
    ];
    owner_inside =
        λ u q. let same : w ≡ u = ground arith in ap inside (h.waits u (ground (arith, front u)));
    waits = λ u r. h.waits u (omega (arith, front u));
  }
    where
      front : (u : ℕ) → occurs u p.waiting ≡ is u w + occurs u ws
      front u = ap (occurs u) e

      back : (u : ℕ) → occurs u (p.ready ++ w ∷ []) ≡ occurs u p.ready + is u w
      back u = total-append (is u) p.ready (w ∷ []) ∙ omega arith

  pub serve-Holds : (p : Plan) → Holds but points p → Holds but points (serve p)
  serve-Holds p h = elim (Option-cases p.owner) [
    | inl free ↦
        subst (Holds but points) (sym (serve-none p free)) (grant-Holds p.waiting p refl free h)
    | inr (u, held) ↦ subst (Holds but points) (sym (serve-some p u held)) h
  ]

module _ (points : ℕ → Point) where
  rotate-Holds : (q : Plan) → Holds none points q → Holds none points (conclude yielded q)
  rotate-Holds q h = record {
    single = h.single;
    inside_owns = h.inside_owns;
    owner_inside = h.owner_inside;
    waits = h.waits;
  }

  module _ (t : ℕ) (q : Plan) (e : running q ≡ some t) (h : Holds (some t) points q) where
    left : (u : ℕ) → occurs u (take_out q.ready q.current) + is u t ≡ occurs u q.ready
    left u = total-take_out (is u) q.ready q.current t e

    -- Who is ready when `t` has left is another thread.
    owns_still :
        (u : ℕ)
        → 1 ≤ occurs u (take_out q.ready q.current)
        → inside (points u) ≡ true
        → q.owner ≡ some u
    owns_still u r i =
        h.inside_owns u (λ same. ground (arith, left u, h.single u, same)) (omega (arith, left u)) i

    depart-Holds : Holds none points (depart q)
    depart-Holds = record {
      single = λ u. omega (arith, h.single u, left u);
      inside_owns = λ u n r i. owns_still u r i;
      owner_inside = h.owner_inside;
      waits = h.waits;
    }

    park-Holds : points t ≡ locked → Holds none points (depart (park q))
    park-Holds at =
        subst (λ r. Holds none points (depart r)) (sym (park-running q t e))
          (record {
            single = λ u. omega (arith, h.single u, left u, behind u);
            inside_owns = λ u n r i. owns_still u r i;
            owner_inside = h.owner_inside;
            waits = λ u r. elim (Bool-cases (u == t)) [
              | inl same ↦ let f : u ≡ t = ground arith in ap points f ∙ at
              | inr other ↦ h.waits u (ground (arith, behind u))
            ];
          })
      where
        behind : (u : ℕ) → occurs u (q.waiting ++ t ∷ []) ≡ occurs u q.waiting + is u t
        behind u = total-append (is u) q.waiting (t ∷ []) ∙ omega arith

    take-Holds :
        points t ≡ locked → q.owner ≡ none → Holds none points (record q { owner = running q })
    take-Holds at free = record {
      single = h.single;
      inside_owns = λ u n r i. elim (Bool-cases (t == u)) [
        | inl same ↦ let f : t ≡ u = ground arith in e ∙ ap some f
        | inr other ↦ absurd (cc (free, h.inside_owns u (λ s. ground (arith, s, other)) r i))
      ];
      owner_inside =
          λ u o. let f : t ≡ u = ground (arith, e, o) in ap inside (sym (ap points f) ∙ at);
      waits = h.waits;
    }

    locking-Holds : points t ≡ locked → Holds none points (conclude locking q)
    locking-Holds at = elim (Option-cases q.owner) [
      | inl free ↦ subst (Holds none points) (sym (conclude_free q free)) (take-Holds at free)
      | inr (u, held) ↦ subst (Holds none points) (sym (conclude_held q u held)) (park-Holds at)
    ]

-- What a jump leaves.
pub yielded-Holds :
    (points : ℕ → Point) (p : Plan) → Holds none points p → Holds none points (schedule yielded p)
unfolding schedule
yielded-Holds points p h = rotate-Holds points (serve p) (serve-Holds none points p h)

pub locked-Holds :
    (points : ℕ → Point) (p : Plan) (t : ℕ)
    → IsSound p
    → running p ≡ some t
    → points t ≡ locked
    → Holds (some t) points p
    → Holds none points (schedule locking p)
unfolding schedule
locked-Holds points p t s e at h =
    locking-Holds points t (serve p) ((serve-Served p s).same ∙ e) (serve-Holds (some t) points p h)
      at

pub exited-Holds :
    (points : ℕ → Point) (p : Plan) (t : ℕ)
    → IsSound p
    → running p ≡ some t
    → Holds (some t) points p
    → Holds none points (schedule exited p)
unfolding schedule
exited-Holds points p t s e h =
    depart-Holds points t (serve p) ((serve-Served p s).same ∙ e) (serve-Holds (some t) points p h)
