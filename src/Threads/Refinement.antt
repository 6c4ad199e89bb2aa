-- ===== src/Threads/Refinement.antt =====
-- `scheduler` on the arrays of a plan, against `schedule` on the plan.
use system_design.Base.{
  ℕ, suc, ◌<◌, ◌≡◌, ◌≢◌, refl, zero, is_none, Option, none, some, List, [], ◌∷◌, ◌++◌, arith, ltb,
  length, get_elem?, length-append, true, false,
}
use system_design.Threads.State.{Jump, called, yielded, locking, exited}
use system_design.Threads.Scheduler.{
  reschedule, when_lock_free, when_lock_held, when_none_wait, take_lock,
}
use system_design.Threads.Spec.{Plan, load, schedule, Fits}
use system_design.Threads.Arrays.{
  bring_first-load, fill_hole-depart, remove_current-load, park_current-load, park-running,
  advance-load, read-lt,
}

ltb-suc : (n : ℕ) → ltb 0 (suc n) ≡ true
ltb-suc n = ground arith

abbrev plan : List ℕ → List ℕ → ℕ → Option ℕ → Plan
plan rs ws c o = record { ready = rs; waiting = ws; current = c; owner = o }

pub running-lt : (xs : List ℕ) (i : ℕ) → i < length xs → (t : ℕ) × (get_elem? xs i ≡ some t)
running-lt [] i h = elim h [ ]
running-lt (x ∷ xs) zero h = (x, refl)
running-lt (x ∷ xs) (suc i) h = running-lt xs i (omega arith)

module _ (x : ℕ) (xs : List ℕ) (c : ℕ) where
  held-load :
      (see : Jump) (ws : List ℕ) (o : Option ℕ)
      → Fits (plan (x ∷ xs) ws c o)
      → is_none o ≡ false
      → see ≢ called
      → when_lock_held see (load (plan (x ∷ xs) ws c o))
        ≡ some (load (schedule see (plan (x ∷ xs) ws c o)))
  unfolding when_lock_held schedule
  held-load see ws none f o h = cc
  held-load called ws (some u) f o h = absurd (h refl)
  held-load yielded ws (some u) f o h = advance-load (plan (x ∷ xs) ws c (some u)) f.current_ready
  held-load locking ws (some u) f o h =
      let p : Plan = plan (x ∷ xs) ws c (some u) in
      let (t, e) = running-lt (x ∷ xs) c f.current_ready in
      rw
        (
          park_current-load p t e (omega (arith, f.room, f.current_ready)) (omega (arith, f.room)),
          park-running p t e,
        )
        (remove_current-load x xs (ws ++ t ∷ []) c (some u) (omega (arith, f.room))
          (omega (arith, f.current_ready)))
  held-load exited ws (some u) f o h =
      remove_current-load x xs ws c (some u) (omega (arith, f.room))
        (omega (arith, f.current_ready))

  free-load :
      (see : Jump) (w : ℕ) (ws : List ℕ)
      → Fits (plan (x ∷ xs) (w ∷ ws) c none)
      → see ≢ called
      → when_lock_free see (load (plan (x ∷ xs) (w ∷ ws) c none))
        ≡ some (load (schedule see (plan (x ∷ xs) (w ∷ ws) c none)))
  unfolding when_lock_free schedule
  free-load called w ws f h = absurd (h refl)
  free-load yielded w ws f h = rw (bring_first-load (x ∷ xs) w ws c none f.room (omega arith)) (
      advance-load (plan (x ∷ xs ++ w ∷ []) ws c (some w))
        (omega (arith, length-append xs (w ∷ []), f.current_ready)))
  free-load locking w ws f h =
      let p : Plan = plan (x ∷ xs ++ w ∷ []) ws c (some w) in
      let n = length-append xs (w ∷ []) in
      let (t, e) = running-lt (x ∷ xs ++ w ∷ []) c (omega (arith, n, f.current_ready)) in
      rw
        (
          bring_first-load (x ∷ xs) w ws c none f.room (omega arith),
          park_current-load p t e (omega (arith, f.room, f.current_ready)) (omega (arith, f.room)),
          park-running p t e,
        )
        (fill_hole-depart x (xs ++ w ∷ []) (ws ++ t ∷ []) c (some w) (omega (arith, n, f.room))
          (omega (arith, n, f.current_ready)))
  free-load exited w ws f h =
      let n = length-append xs (w ∷ []) in
      rw (bring_first-load (x ∷ xs) w ws c none f.room (omega arith)) (
        fill_hole-depart x (xs ++ w ∷ []) ws c (some w) (omega (arith, n, f.room))
          (omega (arith, n, f.current_ready)))

  none_wait-load :
      (see : Jump) (o : Option ℕ)
      → Fits (plan (x ∷ xs) [] c o)
      → see ≢ called
      → when_none_wait see (load (plan (x ∷ xs) [] c o))
        ≡ some (load (schedule see (plan (x ∷ xs) [] c o)))
  unfolding when_none_wait schedule take_lock
  none_wait-load called o f h = absurd (h refl)
  none_wait-load yielded none f h = advance-load (plan (x ∷ xs) [] c none) f.current_ready
  none_wait-load yielded (some u) f h = advance-load (plan (x ∷ xs) [] c (some u)) f.current_ready
  none_wait-load locking none f h =
      let (t, e) = running-lt (x ∷ xs) c f.current_ready in
      rw (read-lt (get_elem? (x ∷ xs)) c (omega (arith, f.room, f.current_ready)), e)
  none_wait-load locking (some u) f h =
      let p : Plan = plan (x ∷ xs) [] c (some u) in
      let (t, e) = running-lt (x ∷ xs) c f.current_ready in
      rw
        (
          park_current-load p t e (omega (arith, f.room, f.current_ready)) (omega arith),
          park-running p t e,
        )
        (remove_current-load x xs (t ∷ []) c (some u) (omega (arith, f.room))
          (omega (arith, f.current_ready)))
  none_wait-load exited none f h =
      remove_current-load x xs [] c none (omega (arith, f.room)) (omega (arith, f.current_ready))
  none_wait-load exited (some u) f h =
      remove_current-load x xs [] c (some u) (omega (arith, f.room))
        (omega (arith, f.current_ready))

reschedule-plan :
    (see : Jump) (rs ws : List ℕ) (c : ℕ) (o : Option ℕ)
    → Fits (plan rs ws c o)
    → see ≢ called
    → reschedule see (load (plan rs ws c o)) ≡ some (load (schedule see (plan rs ws c o)))
unfolding reschedule
reschedule-plan called rs ws c o f h = absurd (h refl)
reschedule-plan see [] ws c o f h = absurd (omega (arith, f.current_ready))
reschedule-plan see (x ∷ xs) [] c o f h = none_wait-load x xs c see o f h
reschedule-plan see (x ∷ xs) (w ∷ ws) c none f h =
    rw (ltb-suc (length ws)) (free-load x xs c see w ws f h)
reschedule-plan see (x ∷ xs) (w ∷ ws) c (some u) f h =
    rw (ltb-suc (length ws)) (held-load x xs c see (w ∷ ws) (some u) f refl h)

-- Entered by a jump of a running thread, the array code of `scheduler` never leaves its arrays or
-- reads a NULL thread before it dispatches, and does what the specification does.
pub reschedule-load :
    (see : Jump) (p : Plan)
    → Fits p
    → see ≢ called
    → reschedule see (load p) ≡ some (load (schedule see p))
reschedule-load see p f h = reschedule-plan see p.ready p.waiting p.current p.owner f h
