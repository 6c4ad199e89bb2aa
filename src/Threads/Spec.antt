-- ===== src/Threads/Spec.antt =====
-- What `scheduler` promises, on two lists of thread ids: first the lock is handed to the longest
-- waiter, then the thread that jumped yields, parks or leaves.
use system_design.Base.{
  ℕ, suc, ◌+◌, ◌≤◌, ◌<◌, ◌%◌, ◌≡◌, ◌≢◌, refl, ap, Option, none, some, List, [], ◌∷◌, ◌++◌,
  if◌then◌else◌, ◌==◌, is_none, length, get_elem?, set, get_last, drop_last,
}
use system_design.Threads.State.{Sched, Jump, called, yielded, locking, exited, thread_max}

pub record Plan : Type 0 where
  pub ready : List ℕ
  pub waiting : List ℕ
  pub current : ℕ
  pub owner : Option ℕ

-- The arrays that hold a plan: the threads from index 0 on, NULL behind them.
abbrev pub load : Plan → Sched
load p = record {
  ready_queue = get_elem? p.ready;
  waiting_queue = get_elem? p.waiting;
  rq_size = length p.ready;
  rq_current = p.current;
  wq_size = length p.waiting;
  lock_owner = p.owner;
}

-- A free lock goes to the first thread that waits, and that thread becomes ready.
abbrev pub grant : List ℕ → Plan → Plan
grant [] p = p
grant (w ∷ ws) p = record p { ready = p.ready ++ w ∷ []; waiting = ws; owner = some w }

abbrev pub serve : Plan → Plan
serve p = if is_none p.owner then grant p.waiting p else p

abbrev pub take_out : List ℕ → ℕ → List ℕ
take_out [] i = []
take_out (x ∷ xs) i = set (drop_last x xs) i (get_last x xs)

-- The current thread leaves the ready list. The last one takes its place and runs next; if the
-- current one was last, the first runs next.
abbrev pub depart : Plan → Plan
depart p = record p {
  ready = take_out p.ready p.current;
  current = (if suc p.current == length p.ready then 0 else p.current);
}

abbrev pub running : Plan → Option ℕ
running p = get_elem? p.ready p.current

abbrev pub park : Plan → Plan
park p = elim (running p) [ none ↦ p | some t ↦ record p { waiting = p.waiting ++ t ∷ [] } ]

abbrev pub rotate : Plan → Plan
rotate p = record p { current = (p.current + 1) % length p.ready }

abbrev pub conclude : Jump → Plan → Plan
conclude called p = record p { current = 0 }
conclude yielded p = rotate p
conclude locking p = if is_none p.owner then record p { owner = running p } else depart (park p)
conclude exited p = depart p

unfoldable pub schedule : Jump → Plan → Plan
schedule called p = conclude called p
schedule see p = conclude see (serve p)

pub conclude_free :
    (q : Plan) → q.owner ≡ none → conclude locking q ≡ record q { owner = running q }
conclude_free q e =
    ap (λ o. if is_none o then record q { owner = running q } else depart (park q)) e

pub conclude_held : (q : Plan) (u : ℕ) → q.owner ≡ some u → conclude locking q ≡ depart (park q)
conclude_held q u e =
    ap (λ o. if is_none o then record q { owner = running q } else depart (park q)) e

pub schedule-serve :
    (see : Jump) (p : Plan) → see ≢ called → schedule see p ≡ conclude see (serve p)
unfolding schedule
schedule-serve called p h = absurd (h refl)
schedule-serve yielded p h = refl
schedule-serve locking p h = refl
schedule-serve exited p h = refl

-- The current thread is ready, and there are no more threads than slots.
pub record Fits (p : Plan) : Type 0 where
  pub current_ready : p.current < length p.ready
  pub room : length p.ready + length p.waiting ≤ thread_max
