-- ===== src/Pool/Sections.antt =====
-- The two sections of a worker, on the queue as a list.
use system_design.Base.{
  ℕ, suc, ◌+◌, ◌≡◌, ◌≢◌, refl, sym, Option, none, some, List, [], ◌∷◌, arith, if◌then◌else◌, update,
  is_none,
}
use system_design.Pool.State.{Call, Job, Memory}
use system_design.Pool.Code.{sleep, leave, take, worker_enter, job_call, worker_finish, is_idle}
use system_design.Pool.Chain.{Node, Chain, End, Avoids, Apart, IsQueue, Keeps, Chain-frame}

-- A worker takes the first job of the list.
pub record Takes (a : ℕ) (c : Call) (q : List Node) (m n : Memory) : Type 0 where
  pub queue : IsQueue n q
  pub keeps : Keeps m n
  pub jc : n.pool.jc ≡ m.pool.jc + 1
  pub call : job_call (some a) n ≡ some c
  pub at : (job : Job) × (n.heap a ≡ some job)

unlinked : Job → Memory → Memory
unlinked job m =
    if is_none job.next
    then record m { pool = record m.pool { head = none; tail = none; jc = m.pool.jc + 1 } }
    else record m { pool = record m.pool { head = job.next; jc = m.pool.jc + 1 } }

enter_took :
    (m : Memory) (a : ℕ) (job : Job)
    → m.pool.shutdown ≡ 0
    → m.pool.head ≡ some a
    → m.heap a ≡ some job
    → worker_enter m ≡ some (unlinked job m, take (some a))
unfolding worker_enter unlinked
enter_took m a job up first at = ground arith

unlinked-Takes :
    (m : Memory) (a : ℕ) (c : Call) (q : List Node) (next : Option ℕ)
    → m.heap a ≡ some (record { next = next; call = c })
    → Chain m.heap next q
    → End m.pool.tail ((a, c) ∷ q)
    → Apart q
    → Takes a c q m (unlinked (record { next = next; call = c }) m)
unfolding unlinked job_call
unlinked-Takes m a c [] next at k e d =
    rw (k, unlinked)
      (record {
        queue = record { chain = refl; end = refl; apart = tt };
        keeps = record { tc = refl; shutdown = refl; allocated = λ b h. h };
        jc = refl;
        call = rw at;
        at = (_, at);
      })
unlinked-Takes m a c ((b, cb) ∷ q) next at k e d =
    rw (k.0, unlinked)
      (record {
        queue = record { chain = (refl, k.1, k.2, k.3); end = e; apart = d };
        keeps = record { tc = refl; shutdown = refl; allocated = λ b h. h };
        jc = refl;
        call = rw at;
        at = (_, at);
      })

pub enter-Takes :
    (m : Memory) (a : ℕ) (c : Call) (q : List Node)
    → m.pool.shutdown ≡ 0
    → IsQueue m ((a, c) ∷ q)
    → (n : Memory) × (worker_enter m ≡ some (n, take (some a))) × Takes a c q m n
enter-Takes m a c q up k =
    let (first, next, at, rest) = k.chain in
    let job : Job = record { next = next; call = c } in
    (
      unlinked job m,
      enter_took m a job up first at,
      unlinked-Takes m a c q next at rest k.end k.apart.1,
    )

pub enter-sleep :
    (m : Memory) → m.pool.shutdown ≡ 0 → m.pool.head ≡ none → worker_enter m ≡ some (m, sleep)
unfolding worker_enter
enter-sleep m up empty = ground arith

pub enter-leave :
    (m : Memory) (tc : ℕ)
    → m.pool.shutdown ≡ 1
    → m.pool.tc ≡ suc tc
    → worker_enter m ≡ some (record m { pool = record m.pool { tc = tc } }, leave)
unfolding worker_enter
enter-leave m tc shut e = ground arith

-- A worker frees the job that it holds.
pub record Frees (a : ℕ) (q : List Node) (m n : Memory) : Type 0 where
  pub queue : IsQueue n q
  pub tc : n.pool.tc ≡ m.pool.tc
  pub shutdown : n.pool.shutdown ≡ m.pool.shutdown
  pub jc : suc n.pool.jc ≡ m.pool.jc
  pub others : (b : ℕ) → a ≢ b → n.heap b ≡ m.heap b

pub finish-Frees :
    (m : Memory) (a jc : ℕ) (job : Job) (q : List Node)
    → IsQueue m q
    → m.heap a ≡ some job
    → Avoids a q
    → m.pool.jc ≡ suc jc
    → (n : Memory) × (worker_finish (some a) m ≡ some (n, is_idle n)) × Frees a q m n
unfolding worker_finish
finish-Frees m a jc job q k at f e = (
  record { pool = record m.pool { jc = jc }; heap = update m.heap a none },
  ground arith,
  record {
    queue = record {
      chain = Chain-frame m.heap a none m.pool.head q f k.chain;
      end = k.end;
      apart = k.apart;
    };
    tc = refl;
    shutdown = refl;
    jc = sym e;
    others = λ b h. ground arith;
  },
)
