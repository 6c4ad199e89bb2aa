-- ===== src/Threads/Progress.antt =====
-- What a jump into the scheduler keeps, and where it goes (UserLevelThreadLibrary/scheduler.c).
use system_design.Base.{
  ℕ, zero, suc, ◌+◌, ◌-◌, ◌<◌, ◌≡◌, ◌≢◌, ◌⊎◌, inl, inr, refl, ap, sym, subst, dec_lt, Option-cases,
  none, some, List, [], ◌∷◌, ◌++◌, arith, if◌then◌else◌, ◌==◌, is_none, length, get_elem?,
  get_elem?-set, get_elem?-snoc, get_last, drop_last, length-drop_last, get_elem?-drop_last,
  get_elem?-get_last, length-append,
}
use system_design.Threads.State.{Jump, called, yielded, locking, exited, return_to_main, resume}
use system_design.Threads.Scheduler.{dispatch, scheduler}
use system_design.Threads.Spec.{
  Plan, load, grant, serve, take_out, depart, running, park, rotate, conclude, schedule, Fits,
  conclude_free, conclude_held,
}
use system_design.Threads.Arrays.{park-running, ==-ne, read-lt, length-take_out}
use system_design.Threads.Refinement.{reschedule-load, running-lt}

-- Where the owner of the lock stands in the ready list.
abbrev pub OwnerAt : (ℕ → Type 0) → Plan → Type 0
OwnerAt P p = (u : ℕ) → p.owner ≡ some u → (i : ℕ) × (get_elem? p.ready i ≡ some u) × P i

-- The owner of the lock is ready.
pub record IsSound (p : Plan) : Type 0 where
  pub fits : Fits p
  pub owner_ready : OwnerAt (λ _. Unit {0}) p

-- Nothing is left to run.
abbrev pub IsDone : Plan → Type 0
IsDone p = (p.ready ≡ []) × (p.waiting ≡ [])

-- Who stands at another index than the one taken out is still there.
take_out-keeps :
    (xs : List ℕ) (c i u : ℕ)
    → get_elem? xs i ≡ some u
    → i ≢ c
    → c < length xs
    → (j : ℕ) × (get_elem? (take_out xs c) j ≡ some u)
take_out-keeps [] c i u e ne h = cc
take_out-keeps (x ∷ xs) c i u e ne h = (
  (if length xs == i then c else i),
  ground (
    arith,
    get_elem?-set (drop_last x xs) c (if length xs == i then c else i) (get_last x xs),
    get_elem?-drop_last x xs i,
    get_elem?-get_last x xs,
    length-drop_last x xs,
  ),
)

length-take_out_of : (xs : List ℕ) (c : ℕ) → length (take_out xs c) ≡ length xs - 1
length-take_out_of [] c = omega arith
length-take_out_of (x ∷ xs) c = omega (arith, length-take_out x xs c)

lt_of_get : (xs : List ℕ) (i u : ℕ) → get_elem? xs i ≡ some u → i < length xs
lt_of_get [] i u e = cc
lt_of_get (x ∷ xs) zero u e = omega arith
lt_of_get (x ∷ xs) (suc i) u e = omega (arith, lt_of_get xs i u e)

depart-IsSound :
    (p : Plan) → Fits p → OwnerAt (λ i. i ≢ p.current) p → 1 < length p.ready → IsSound (depart p)
depart-IsSound p f at more = record {
  fits = record {
    current_ready = ground (arith, length-take_out_of p.ready p.current, f.current_ready);
    room = omega (arith, length-take_out_of p.ready p.current, f.room);
  };
  owner_ready = λ u e.
      let (i, g, ne) = at u e in
      let (j, k) = take_out-keeps p.ready p.current i u g ne f.current_ready in (j, k, tt);
}

abbrev pub Elsewhere : Plan → Type 0
Elsewhere p = OwnerAt (λ i. i ≢ p.current) p

-- What holds once the lock has been handed over.
pub record Served (p q : Plan) : Type 0 where
  pub fits : Fits q
  pub ready : OwnerAt (λ _. Unit {0}) q
  pub apart : Elsewhere p → Elsewhere q
  pub freed : q.owner ≡ none → q.waiting ≡ []
  pub total : length q.ready + length q.waiting ≡ length p.ready + length p.waiting
  pub same : running q ≡ running p

grant-Served :
    (ws : List ℕ) (p : Plan) → p.waiting ≡ ws → p.owner ≡ none → IsSound p → Served p (grant ws p)
grant-Served [] p e o s = record {
  fits = s.fits;
  ready = s.owner_ready;
  apart = λ a. a;
  freed = λ _. e;
  total = refl;
  same = refl;
}
grant-Served (w ∷ ws) p e o s = record {
  fits = record {
    current_ready = omega (arith, n, s.fits.current_ready);
    room = omega (arith, n, ap length e, s.fits.room);
  };
  ready = λ u h. (length p.ready, ground (arith, get_elem?-snoc p.ready w (length p.ready)), tt);
  apart = λ a u h. (
    length p.ready,
    ground (arith, get_elem?-snoc p.ready w (length p.ready)),
    omega (arith, s.fits.current_ready),
  );
  freed = λ h. cc;
  total = omega (arith, n, ap length e);
  same = ground (arith, get_elem?-snoc p.ready w p.current, s.fits.current_ready);
}
  where
    n : length (p.ready ++ w ∷ []) ≡ length p.ready + 1
    n = length-append p.ready (w ∷ [])

pub serve-none : (p : Plan) → p.owner ≡ none → serve p ≡ grant p.waiting p
serve-none p free = ap (λ o. if is_none o then grant p.waiting p else p) free

pub serve-some : (p : Plan) (u : ℕ) → p.owner ≡ some u → serve p ≡ p
serve-some p u held = ap (λ o. if is_none o then grant p.waiting p else p) held

pub serve-Served : (p : Plan) → IsSound p → Served p (serve p)
serve-Served p s = elim (Option-cases p.owner) [
  | inl free ↦ subst (Served p) (sym (serve-none p free)) (grant-Served p.waiting p refl free s)
  | inr (u, held) ↦ subst (Served p) (sym (serve-some p u held)) (record {
    fits = s.fits;
    ready = s.owner_ready;
    apart = λ a. a;
    freed = λ e. absurd (cc);
    total = refl;
    same = refl;
  })
]

abbrev Next : Plan → Type 0
Next q = IsDone q ⊎ IsSound q

take_out_single : (xs : List ℕ) (c : ℕ) → length xs ≡ 1 → take_out xs c ≡ []
take_out_single [] c e = refl
take_out_single (x ∷ []) c e = refl
take_out_single (x ∷ y ∷ ys) c e = absurd (omega arith)

more_of_owner : (q : Plan) (u : ℕ) → Fits q → Elsewhere q → q.owner ≡ some u → 1 < length q.ready
more_of_owner q u f a e =
    let (i, g, ne) = a u e in omega (arith, lt_of_get q.ready i u g, ne, f.current_ready)

exited-Next :
    (q : Plan) → Fits q → Elsewhere q → (q.owner ≡ none → q.waiting ≡ []) → Next (depart q)
exited-Next q f a freed = elim (Option-cases q.owner) [
  | inl free ↦ elim (dec_lt 1 (length q.ready)) [
    | yes more ↦ inr (depart-IsSound q f a more)
    | no one ↦ inl (take_out_single q.ready q.current (omega (arith, f.current_ready)), freed free)
  ]
  | inr (u, held) ↦ inr (depart-IsSound q f a (more_of_owner q u f a held))
]

-- Parking moves nobody in the ready list.
park-depart-IsSound :
    (q : Plan) (u : ℕ) → Fits q → Elsewhere q → q.owner ≡ some u → IsSound (depart (park q))
park-depart-IsSound q u f a held =
    let (t, e) = running-lt q.ready q.current f.current_ready in
    let d = depart-IsSound q f a (more_of_owner q u f a held) in
    subst (λ r. IsSound (depart r)) (sym (park-running q t e))
      (record {
        fits = record {
          current_ready = d.fits.current_ready;
          room = omega (
            arith,
            f.room,
            f.current_ready,
            length-take_out_of q.ready q.current,
            length-append q.waiting (t ∷ []),
          );
        };
        owner_ready = d.owner_ready;
      })

locking-Next : (q : Plan) → Fits q → Elsewhere q → IsSound (conclude locking q)
locking-Next q f a = elim (Option-cases q.owner) [
  | inl free ↦ subst IsSound (sym (conclude_free q free)) (record {
    fits = record { current_ready = f.current_ready; room = f.room };
    owner_ready = λ u e. (q.current, e, tt);
  })
  | inr (u, held) ↦ subst IsSound (sym (conclude_held q u held)) (park-depart-IsSound q u f a held)
]

rotate-IsSound : (q : Plan) → Fits q → OwnerAt (λ _. Unit {0}) q → IsSound (rotate q)
rotate-IsSound q f o = record {
  fits = record { current_ready = omega (arith, f.current_ready); room = f.room };
  owner_ready = o;
}

-- What the thread that jumps may not be: the lock's owner, unless it only yields.
abbrev pub Leaves : Jump → Plan → Type 0
Leaves yielded p = Unit
Leaves see p = (u : ℕ) → p.owner ≡ some u → running p ≢ some u

elsewhere : (p : Plan) → IsSound p → ((u : ℕ) → p.owner ≡ some u → running p ≢ some u) → Elsewhere p
elsewhere p s l u e = let (i, g, _) = s.owner_ready u e in (i, g, λ here. l u e (rw here at g))

-- After a jump either no thread is left, or the current index is in range, the threads fit their
-- arrays and the owner of the lock is ready: nobody waits for a thread that cannot run.
pub schedule-IsSound :
    (see : Jump) (p : Plan)
    → see ≢ called
    → IsSound p
    → Leaves see p
    → IsDone (schedule see p) ⊎ IsSound (schedule see p)
unfolding schedule
schedule-IsSound called p h s l = absurd (h refl)
schedule-IsSound yielded p h s l =
    let v = serve-Served p s in inr (rotate-IsSound (serve p) v.fits v.ready)
schedule-IsSound locking p h s l =
    let v = serve-Served p s in inr (locking-Next (serve p) v.fits (v.apart (elsewhere p s l)))
schedule-IsSound exited p h s l =
    let v = serve-Served p s in exited-Next (serve p) v.fits (v.apart (elsewhere p s l)) v.freed

dispatch_done : (q : Plan) → IsDone q → dispatch (load q) ≡ some (load q, return_to_main)
unfolding dispatch
dispatch_done q d = ground (arith, ap length d.0, ap length d.1)

pub dispatch_resumes :
    (q : Plan) (t : ℕ) → Fits q → running q ≡ some t → dispatch (load q) ≡ some (load q, resume t)
unfolding dispatch
dispatch_resumes q t f e = rw (
  ==-ne (length q.ready) 0 (omega (arith, f.current_ready)),
  read-lt (get_elem? q.ready) q.current (omega (arith, f.room, f.current_ready)),
  e,
)

-- The whole `scheduler`: it returns to `main` when no thread is left, and otherwise resumes the
-- thread that the specification says.
pub scheduler_total :
    (see : Jump) (p : Plan)
    → see ≢ called
    → IsSound p
    → Leaves see p
    → (IsDone (schedule see p)
        × (scheduler see (load p) ≡ some (load (schedule see p), return_to_main)))
      ⊎ ((t : ℕ) × (running (schedule see p) ≡ some t)
          × (scheduler see (load p) ≡ some (load (schedule see p), resume t)))
unfolding scheduler
scheduler_total see p h s l = elim (schedule-IsSound see p h s l) [
  | inl d ↦ inl (d, rw (reschedule-load see p s.fits h) (dispatch_done (schedule see p) d))
  | inr q ↦
      let (t, e) =
        running-lt (schedule see p).ready (schedule see p).current q.fits.current_ready in
      inr (t, e, rw (reschedule-load see p s.fits h) (dispatch_resumes (schedule see p) t q.fits e))
]
