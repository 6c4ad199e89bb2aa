-- ===== src/Pool/Invariant.antt =====
-- What holds between two critical sections, whatever the interleaving.
use system_design.Base.{
  ℕ, ◌≡◌, ◌≢◌, refl, sym, Bool, true, false, none, some, List, [], ◌++◌, map, tally, tally-all,
  tally-none,
}
use system_design.Pool.State.{Call, Heap, Memory}
use system_design.Pool.Code.{is_idle}
use system_design.Pool.Chain.{Node, Avoids, IsQueue}
use system_design.Pool.System.{
  System, Worker, ready, asleep, finishing, gone, Client, outside, waiting, wait_asleep, destroying,
  destroy_asleep, destroyed, start,
}

-- A worker that has taken a job and not yet freed it.
abbrev pub holds : Worker → Bool
holds (finishing (some a)) = true
holds _ = false

-- A worker that has not left the loop.
abbrev pub alive : Worker → Bool
alive gone = false
alive _ = true

abbrev pub calls : List Node → List Call
calls = map (λ x. x.1)

-- What the client's place says of the pool.
abbrev pub ClientFits : Memory → Client → Type 0
ClientFits m outside = m.pool.shutdown ≡ 0
ClientFits m waiting = m.pool.shutdown ≡ 0
ClientFits m wait_asleep = (m.pool.shutdown ≡ 0) × (is_idle m ≡ false)
ClientFits m destroying = m.pool.shutdown ≡ 1
ClientFits m destroy_asleep = (m.pool.shutdown ≡ 1) × (m.pool.tc ≢ 0)
ClientFits m destroyed = (m.pool.shutdown ≡ 1) × (m.pool.tc ≡ 0)

-- What a worker's place says of the pool and of the queue.
abbrev pub WorkerFits : Memory → List Node → Worker → Type 0
WorkerFits m q ready = Unit
WorkerFits m q asleep = (m.pool.shutdown ≡ 0) × (q ≡ [])
WorkerFits m q (finishing none) = ⊥
WorkerFits m q (finishing (some a)) = (m.heap a ≢ none) × Avoids a q
WorkerFits m q gone = m.pool.shutdown ≡ 1

pub record Inv (n : ℕ) (s : System) (q : List Node) : Type 0 where
  pub queue : IsQueue s.memory q
  pub history : s.ran ++ calls q ≡ s.submitted
  pub jc : s.memory.pool.jc ≡ tally holds n s.workers
  pub tc : s.memory.pool.tc ≡ tally alive n s.workers
  pub client : ClientFits s.memory s.client
  pub worker : (i : ℕ) → WorkerFits s.memory q (s.workers i)
  pub single :
      (i j a : ℕ) → s.workers i ≡ finishing (some a) → s.workers j ≡ finishing (some a) → i ≡ j

-- The state of `n` workers just created, over any heap.
pub start-Inv : (n : ℕ) (heap : Heap) → Inv n (start n heap) []
unfolding start
start-Inv n heap = record {
  queue = record { chain = refl; end = refl; apart = tt };
  history = refl;
  jc = sym (tally-none holds n _ (λ i. refl));
  tc = sym (tally-all alive n _ (λ i. refl));
  client = refl;
  worker = λ i. tt;
  single = λ i j a e f. cc;
}
