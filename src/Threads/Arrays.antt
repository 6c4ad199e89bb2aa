-- ===== src/Threads/Arrays.antt =====
-- Each part of the scheduler, on the arrays of a plan (scheduler.c of UserLevelThreadLibrary).
use system_design.Base.{
  ℕ, zero, suc, ◌+◌, ◌≤◌, ◌<◌, ◌≡◌, refl, sym, ap, dec_lt, ◌∙◌, fun_ext, true, false, ◌≢◌, Option,
  none, some, List, [], ◌∷◌, ◌++◌, arith, if◌then◌else◌, ◌==◌, ltb, update, length, get_elem?,
  get_elem?-set, get_elem?-snoc, get_elem?-above, get_last, drop_last, length-drop_last,
  get_elem?-get_last, get_elem?-drop_last, length-append, length-set,
}
use system_design.Threads.State.{Sched, Slots, thread_max, read, write}
use system_design.Threads.Scheduler.{
  shift_down, bring_first, fill_hole, remove_current, park_current, advance,
}
use system_design.Threads.Spec.{Plan, load, take_out, depart, running, park, rotate}

pub read-lt : (slots : Slots) (i : ℕ) → i < thread_max → read slots i ≡ some (slots i)
unfolding read
read-lt slots i h = ground arith

pub write-lt :
    (slots : Slots) (i : ℕ) (v : Option ℕ)
    → i < thread_max
    → write slots i v ≡ some (update slots i v)
unfolding write
write-lt slots i v h = ground arith

-- What `n` rounds of the loop from `i` leave.
abbrev moved : ℕ → ℕ → Slots → Slots
moved n i slots j = if ltb j i then slots j else if ltb j (i + n) then slots (j + 1) else slots j

moved-step :
    (n i : ℕ) (slots : Slots)
    → moved n (i + 1) (update slots i (slots (i + 1))) ≡ moved (suc n) i slots
moved-step n i slots = fun_ext λ j. ground (arith, ap slots)

shift_down-moved :
    (n i : ℕ) (slots : Slots) → i + n < thread_max → shift_down n i slots ≡ some (moved n i slots)
unfolding shift_down
shift_down-moved zero i slots h = ap some (fun_ext λ j. ground arith)
shift_down-moved (suc n) i slots h =
    rw (read-lt slots (i + 1) (omega arith), write-lt slots i (slots (i + 1)) (omega arith))
      (shift_down-moved n (i + 1) _ (omega arith) ∙ ap some (moved-step n i slots))

moved-get_elem? :
    (w : ℕ) (ws : List ℕ) (j : ℕ)
    → moved (length (w ∷ ws)) 0 (get_elem? (w ∷ ws)) j ≡ get_elem? ws j
moved-get_elem? w [] zero = refl
moved-get_elem? w (x ∷ ws) zero = ground arith
moved-get_elem? w ws (suc j) = ground (arith, get_elem?-above ws j, get_elem?-above ws (suc j))

shift_down-load :
    (w : ℕ) (ws : List ℕ)
    → length (w ∷ ws) < thread_max
    → shift_down (length (w ∷ ws)) 0 (get_elem? (w ∷ ws)) ≡ some (get_elem? ws)
shift_down-load w ws h =
    shift_down-moved _ 0 _ (omega arith) ∙ ap some (fun_ext (moved-get_elem? w ws))

pub snoc_slots :
    (xs : List ℕ) (v : ℕ) → update (get_elem? xs) (length xs) (some v) ≡ get_elem? (xs ++ v ∷ [])
snoc_slots xs v = fun_ext λ j. ground (arith, get_elem?-snoc xs v j)

snoc_read : (xs : List ℕ) (v : ℕ) → get_elem? (xs ++ v ∷ []) (length xs) ≡ some v
snoc_read xs v = ground (arith, get_elem?-snoc xs v (length xs))

clear_above : (xs : List ℕ) (i : ℕ) → length xs ≤ i → update (get_elem? xs) i none ≡ get_elem? xs
clear_above xs i h = fun_ext λ j. ground (arith, get_elem?-above xs j)

pub length-snoc : (xs : List ℕ) (v : ℕ) → length xs + 1 ≡ length (xs ++ v ∷ [])
length-snoc xs v = omega (arith, length-append xs (v ∷ []))

pub sched_ext :
    {s t : Sched}
    → s.ready_queue ≡ t.ready_queue
    → s.waiting_queue ≡ t.waiting_queue
    → s.rq_size ≡ t.rq_size
    → s.rq_current ≡ t.rq_current
    → s.wq_size ≡ t.wq_size
    → s.lock_owner ≡ t.lock_owner
    → some s ≡ some t
sched_ext a b c d e f = λ i. some (record {
  ready_queue = a i;
  waiting_queue = b i;
  rq_size = c i;
  rq_current = d i;
  wq_size = e i;
  lock_owner = f i;
})

pub bring_first-load :
    (rs : List ℕ) (w : ℕ) (ws : List ℕ) (c : ℕ) (o : Option ℕ)
    → length rs + length (w ∷ ws) ≤ thread_max
    → 0 < length rs
    → bring_first (load (record { ready = rs; waiting = w ∷ ws; current = c; owner = o }))
      ≡ some (load (record { ready = rs ++ w ∷ []; waiting = ws; current = c; owner = some w }))
unfolding bring_first
bring_first-load rs w ws c o room pos =
    rw
      (
        read-lt (get_elem? (w ∷ ws)) 0 (omega arith),
        write-lt (get_elem? rs) (length rs) (some w) (omega arith),
        shift_down-load w ws (omega arith),
        write-lt (get_elem? ws) (suc (length ws)) none (omega arith),
        snoc_slots rs w,
        read-lt (get_elem? (rs ++ w ∷ [])) (length rs) (omega arith),
        snoc_read rs w,
      )
      (sched_ext refl (clear_above ws (suc (length ws)) (omega arith)) (length-snoc rs w) refl
        (omega arith) refl)

-- Swapping the last thread into the hole, on arrays.
swap_slots :
    (x : ℕ) (xs : List ℕ) (c : ℕ)
    → c < length xs
    → update (update (update (get_elem? (x ∷ xs)) c none) c (some (get_last x xs))) (length xs) none
      ≡ get_elem? (take_out (x ∷ xs) c)
swap_slots x xs c h = fun_ext λ j. ground (
  arith,
  get_elem?-set (drop_last x xs) c j (get_last x xs),
  get_elem?-drop_last x xs j,
  length-drop_last x xs,
)

drop_slots :
    (x : ℕ) (xs : List ℕ)
    → update (get_elem? (x ∷ xs)) (length xs) none ≡ get_elem? (take_out (x ∷ xs) (length xs))
drop_slots x xs = fun_ext λ j. ground (
  arith,
  get_elem?-set (drop_last x xs) (length xs) j (get_last x xs),
  get_elem?-drop_last x xs j,
  length-drop_last x xs,
)

pub length-take_out : (x : ℕ) (xs : List ℕ) (c : ℕ) → length (take_out (x ∷ xs) c) ≡ length xs
length-take_out x xs c = length-set (drop_last x xs) c (get_last x xs) ∙ length-drop_last x xs

swap_read :
    (x : ℕ) (xs : List ℕ) (c : ℕ)
    → c < length xs
    → update (get_elem? (x ∷ xs)) c none (length xs) ≡ some (get_last x xs)
swap_read x xs c h = ground (arith, get_elem?-get_last x xs)

pub ==-ne : (a b : ℕ) → a ≢ b → (a == b) ≡ false
==-ne a b h = ground arith

==-self : (a : ℕ) → (a == a) ≡ true
==-self a = ground arith

fill_hole-load :
    (x : ℕ) (xs ws : List ℕ) (c : ℕ) (o : Option ℕ)
    → length xs < thread_max
    → c < length xs
    → fill_hole (load (record { ready = x ∷ xs; waiting = ws; current = c; owner = o }))
      ≡ some (load (record { ready = take_out (x ∷ xs) c; waiting = ws; current = c; owner = o }))
unfolding fill_hole
fill_hole-load x xs ws c o room h =
    let hole : Slots = update (get_elem? (x ∷ xs)) c none in
    rw
      (
        write-lt (get_elem? (x ∷ xs)) c none (omega arith),
        read-lt hole (length xs) (omega arith),
        swap_read x xs c h,
        write-lt hole c (some (get_last x xs)) (omega arith),
        write-lt (update hole c (some (get_last x xs))) (length xs) none (omega arith),
      )
      (sched_ext (swap_slots x xs c h) refl (sym (length-take_out x xs c)) refl refl refl)

pub fill_hole-depart :
    (x : ℕ) (xs ws : List ℕ) (c : ℕ) (o : Option ℕ)
    → length xs < thread_max
    → c < length xs
    → fill_hole (load (record { ready = x ∷ xs; waiting = ws; current = c; owner = o }))
      ≡ some (load (depart (record { ready = x ∷ xs; waiting = ws; current = c; owner = o })))
fill_hole-depart x xs ws c o room h =
    rw (==-ne (suc c) (suc (length xs)) (omega arith)) (fill_hole-load x xs ws c o room h)

remove_last-load :
    (x : ℕ) (xs ws : List ℕ) (o : Option ℕ)
    → length xs < thread_max
    → remove_current
        (load (record { ready = x ∷ xs; waiting = ws; current = length xs; owner = o }))
      ≡ some
          (load (depart (record { ready = x ∷ xs; waiting = ws; current = length xs; owner = o })))
unfolding remove_current
remove_last-load x xs ws o room =
    rw
      (
        ==-self (length xs),
        write-lt (get_elem? (x ∷ xs)) (length xs) none room,
        ==-self (suc (length xs)),
      )
      (sched_ext (drop_slots x xs) refl (sym (length-take_out x xs (length xs))) refl refl refl)

pub remove_current-load :
    (x : ℕ) (xs ws : List ℕ) (c : ℕ) (o : Option ℕ)
    → length xs < thread_max
    → c ≤ length xs
    → remove_current (load (record { ready = x ∷ xs; waiting = ws; current = c; owner = o }))
      ≡ some (load (depart (record { ready = x ∷ xs; waiting = ws; current = c; owner = o })))
unfolding remove_current
remove_current-load x xs ws c o room h = elim (dec_lt c (length xs)) [
  | yes inner ↦ rw (==-ne c (length xs) (omega arith)) (fill_hole-depart x xs ws c o room inner)
  | no last ↦ let here : c ≡ length xs = omega arith in rw here (remove_last-load x xs ws o room)
]

pub park-running :
    (p : Plan) (t : ℕ) → running p ≡ some t → park p ≡ record p { waiting = p.waiting ++ t ∷ [] }
park-running p t e = rw (e, park)

pub park_current-load :
    (p : Plan) (t : ℕ)
    → running p ≡ some t
    → p.current < thread_max
    → length p.waiting < thread_max
    → park_current (load p) ≡ some (load (park p))
unfolding park_current
park_current-load p t e here room =
    rw
      (
        park-running p t e,
        read-lt (get_elem? p.ready) p.current here,
        e,
        write-lt (get_elem? p.waiting) (length p.waiting) (some t) room,
      )
      (sched_ext refl (snoc_slots p.waiting t) refl refl (length-snoc p.waiting t) refl)

pub advance-load :
    (p : Plan) → p.current < length p.ready → advance (load p) ≡ some (load (rotate p))
unfolding advance
advance-load p h = rw (==-ne (length p.ready) 0 (omega arith))
