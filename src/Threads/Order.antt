-- ===== src/Threads/Order.antt =====
-- The threads and the lock across a jump into the scheduler (UserLevelThreadLibrary/scheduler.c).
use mathlib.Core.List.{Perm, append_assoc, append-nil, perm_append_comm}
use mathlib.Core.List.Perm
use system_design.Base.{
  ℕ, zero, suc, ◌≡◌, ◌≢◌, refl, ap, sym, dec_lt, ◌≤◌, get_elem?-drop_last, get_elem?-above, subst,
  ◌∙◌, Option-cases, inl, inr, none, some, List, [], ◌∷◌, ◌++◌, arith, length, get_elem?, set,
  get_last, drop_last, length-drop_last, get_elem?-get_last,
}
use system_design.Threads.State.{Jump, called, yielded, locking, exited}
use system_design.Threads.Spec.{
  Plan, grant, serve, take_out, depart, running, park, conclude, schedule, conclude_free,
  conclude_held, schedule-serve,
}
use system_design.Threads.Progress.{IsSound, serve-none, serve-some, serve-Served}
use system_design.Threads.Arrays.{park-running}

-- All threads of a plan.
abbrev pub threads : Plan → List ℕ
threads p = p.ready ++ p.waiting

perm-drop_last : (x : ℕ) (xs : List ℕ) → Perm (x ∷ xs) (get_last x xs ∷ drop_last x xs)
perm-drop_last x [] = Perm.refl _
perm-drop_last x (y ∷ ys) = Perm.trans (Perm.cons x (perm-drop_last y ys)) (Perm.swap _ _ _)

perm-set : (ys : List ℕ) (c t v : ℕ) → get_elem? ys c ≡ some t → Perm (v ∷ ys) (t ∷ set ys c v)
perm-set [] c t v e = cc
perm-set (y ∷ ys) zero t v e =
    let same : y ≡ t = ground arith in
    subst (λ u. Perm (v ∷ y ∷ ys) (u ∷ v ∷ ys)) same (Perm.swap _ _ _)
perm-set (y ∷ ys) (suc c) t v e =
    Perm.trans (Perm.swap _ _ _) (Perm.trans (Perm.cons y (perm-set ys c t v e)) (Perm.swap _ _ _))

pub set_above : (ys : List ℕ) (c v : ℕ) → length ys ≤ c → set ys c v ≡ ys
set_above [] c v h = refl
set_above (y ∷ ys) zero v h = elim h [ ]
set_above (y ∷ ys) (suc c) v h = ap (◌∷◌ y) (set_above ys c v (omega arith))

perm-take_out : (xs : List ℕ) (c t : ℕ) → get_elem? xs c ≡ some t → Perm xs (t ∷ take_out xs c)
perm-take_out [] c t e = cc
perm-take_out (x ∷ xs) c t e = elim (dec_lt c (length xs)) [
  | yes inner ↦
      Perm.trans (perm-drop_last x xs)
        (perm-set (drop_last x xs) c t (get_last x xs) (ground (arith, get_elem?-drop_last x xs c)))
  | no last ↦
      let top : get_last x xs ≡ t =
        ground (arith, get_elem?-get_last x xs, get_elem?-above (x ∷ xs) c) in
      rw (set_above (drop_last x xs) c (get_last x xs) (omega (arith, length-drop_last x xs)))
        (subst (λ u. Perm (x ∷ xs) (u ∷ drop_last x xs)) top (perm-drop_last x xs))
]

-- `some t` was running; nobody is lost when it departs, parks or stays.
depart-perm : (p : Plan) (t : ℕ) → running p ≡ some t → Perm (threads p) (t ∷ threads (depart p))
depart-perm p t e = Perm.append (perm-take_out p.ready p.current t e) (Perm.refl p.waiting)

park-depart-perm :
    (p : Plan) (t : ℕ) → running p ≡ some t → Perm (threads p) (threads (depart (park p)))
park-depart-perm p t e =
    subst (λ q. Perm (threads p) (threads (depart q))) (sym (park-running p t e))
      (Perm.trans (depart-perm p t e)
        (rw (← append_assoc) (Perm.symm (Perm.trans (perm_append_comm _ (t ∷ [])) (Perm.refl _)))))

grant-perm : (ws : List ℕ) (p : Plan) → p.waiting ≡ ws → Perm (threads p) (threads (grant ws p))
grant-perm [] p e = Perm.refl _
grant-perm (w ∷ ws) p e = rw (append_assoc, e) (Perm.refl _)

-- The thread that a jump ends.
abbrev pub leavers : Jump → ℕ → List ℕ
leavers exited t = t ∷ []
leavers _ t = []

abbrev pub parked : Jump → ℕ → List ℕ
parked locking t = t ∷ []
parked _ t = []

conclude-perm :
    (see : Jump) (q : Plan) (t : ℕ)
    → running q ≡ some t
    → Perm (threads q) (leavers see t ++ threads (conclude see q))
conclude-perm called q t e = Perm.refl _
conclude-perm yielded q t e = Perm.refl _
conclude-perm exited q t e = depart-perm q t e
conclude-perm locking q t e = elim (Option-cases q.owner) [
  | inl free ↦ rw (conclude_free q free) (Perm.refl _)
  | inr (u, held) ↦ rw (conclude_held q u held) (park-depart-perm q t e)
]

serve-perm : (p : Plan) → Perm (threads p) (threads (serve p))
serve-perm p = elim (Option-cases p.owner) [
  | inl free ↦
      subst (λ q. Perm (threads p) (threads q)) (sym (serve-none p free))
        (grant-perm p.waiting p refl)
  | inr (u, held) ↦
      subst (λ q. Perm (threads p) (threads q)) (sym (serve-some p u held)) (Perm.refl _)
]

-- A jump into the scheduler by thread `t` loses and doubles no thread: the ready and waiting
-- threads after it are those before it, less `t` if it exits.
pub schedule-perm :
    (see : Jump) (p : Plan) (t : ℕ)
    → IsSound p
    → running p ≡ some t
    → Perm (threads p) (leavers see t ++ threads (schedule see p))
unfolding schedule
schedule-perm called p t s e = Perm.refl _
schedule-perm yielded p t s e =
    Perm.trans (serve-perm p) (conclude-perm yielded (serve p) t ((serve-Served p s).same ∙ e))
schedule-perm locking p t s e =
    Perm.trans (serve-perm p) (conclude-perm locking (serve p) t ((serve-Served p s).same ∙ e))
schedule-perm exited p t s e =
    Perm.trans (serve-perm p) (conclude-perm exited (serve p) t ((serve-Served p s).same ∙ e))

granted-conclude :
    (see : Jump) (q : Plan) (w t : ℕ)
    → q.owner ≡ some w
    → running q ≡ some t
    → ((conclude see q).owner ≡ some w) × ((conclude see q).waiting ≡ q.waiting ++ parked see t)
granted-conclude called q w t o e = (o, sym (append-nil _))
granted-conclude yielded q w t o e = (o, sym (append-nil _))
granted-conclude exited q w t o e = (o, sym (append-nil _))
granted-conclude locking q w t o e =
    subst (λ r. (r.owner ≡ some w) × (r.waiting ≡ q.waiting ++ t ∷ []))
      (sym (conclude_held q w o ∙ ap depart (park-running q t e))) (o, refl)

serve-first :
    (p : Plan) (w : ℕ) (ws : List ℕ)
    → p.owner ≡ none
    → p.waiting ≡ w ∷ ws
    → serve p ≡ grant (w ∷ ws) p
serve-first p w ws free first = serve-none p free ∙ ap (λ l. grant l p) first

-- A free lock goes to the thread that has waited longest, whatever the jump; the others keep their
-- order, and a thread that asks for the lock queues behind them.
pub schedule-hands_over :
    (see : Jump) (p : Plan) (t w : ℕ) (ws : List ℕ)
    → see ≢ called
    → IsSound p
    → running p ≡ some t
    → p.owner ≡ none
    → p.waiting ≡ w ∷ ws
    → ((schedule see p).owner ≡ some w) × ((schedule see p).waiting ≡ ws ++ parked see t)
schedule-hands_over see p t w ws h s e free first =
    let r : running (grant (w ∷ ws) p) ≡ some t =
      subst (λ q. running q ≡ some t) (serve-first p w ws free first)
        ((serve-Served p s).same ∙ e) in
    rw (schedule-serve see p h, serve-first p w ws free first)
      (granted-conclude see (grant (w ∷ ws) p) w t refl r)

conclude-waits :
    (see : Jump) (q : Plan) (t : ℕ)
    → see ≢ called
    → running q ≡ some t
    → (q.owner ≡ none → q.waiting ≡ [])
    → (conclude see q).owner ≡ none
    → (conclude see q).waiting ≡ []
conclude-waits called q t h e f n = absurd (h refl)
conclude-waits yielded q t h e f n = f n
conclude-waits exited q t h e f n = f n
conclude-waits locking q t h e f n = elim (Option-cases q.owner) [
  | inl free ↦ absurd (cc (sym (ap (λ (r : Plan). r.owner) (conclude_free q free)) ∙ n, e))
  | inr (u, held) ↦ absurd (
      cc (
        sym (ap (λ (r : Plan). r.owner) (conclude_held q u held ∙ ap depart (park-running q t e)))
            ∙ n,
        held,
      ))
]

-- Nobody is left waiting for a free lock.
pub schedule-lock_free :
    (see : Jump) (p : Plan) (t : ℕ)
    → see ≢ called
    → IsSound p
    → running p ≡ some t
    → (schedule see p).owner ≡ none
    → (schedule see p).waiting ≡ []
schedule-lock_free see p t h s e =
    let v = serve-Served p s in
    rw (schedule-serve see p h) (conclude-waits see (serve p) t h (v.same ∙ e) v.freed)
