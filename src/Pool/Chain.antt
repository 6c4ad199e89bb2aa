-- ===== src/Pool/Chain.antt =====
-- The linked queue of the pool as a list: what `tpool_add` and the unlinking in `eachthread` do to it.
use system_design.Base.{
  ℕ, ◌≡◌, ◌≢◌, refl, ap, sym, subst, ◌∙◌, Option, none, some, List, [], ◌∷◌, ◌++◌, arith, update,
  All,
}
use system_design.Pool.State.{Call, Job, Heap, Memory}
use system_design.Pool.Code.{tpool_add}

abbrev pub Node : Type 0
Node = ℕ × Call

-- From `p` the heap links exactly these nodes, the last one to NULL.
abbrev pub Chain : Heap → Option ℕ → List Node → Type 0
Chain h p [] = p ≡ none
Chain h p ((a, c) ∷ q) =
    (p ≡ some a)
    × (next : Option ℕ) × (h a ≡ some (record { next = next; call = c }))
    × Chain h next q

abbrev pub End : Option ℕ → List Node → Type 0
End t [] = t ≡ none
End t ((a, c) ∷ []) = t ≡ some a
End t (x ∷ y ∷ q) = End t (y ∷ q)

abbrev pub Avoids : ℕ → List Node → Type 0
Avoids a = All (λ x. a ≢ x.0)

abbrev pub Apart : List Node → Type 0
Apart [] = Unit
Apart (x ∷ q) = Avoids x.0 q × Apart q

pub record IsQueue (m : Memory) (q : List Node) : Type 0 where
  pub chain : Chain m.heap m.pool.head q
  pub end : End m.pool.tail q
  pub apart : Apart q

-- A write to a node outside the chain leaves the chain.
pub Chain-frame :
    (h : Heap) (a : ℕ) (v : Option Job) (p : Option ℕ) (q : List Node)
    → Avoids a q
    → Chain h p q
    → Chain (update h a v) p q
Chain-frame h a v p [] f k = k
Chain-frame h a v p ((b, c) ∷ q) f (e, next, at, rest) =
    (e, next, ground arith, Chain-frame h a v next q f.1 rest)

pub Chain-Avoids :
    (h : Heap) (a : ℕ) (p : Option ℕ) (q : List Node) → h a ≡ none → Chain h p q → Avoids a q
Chain-Avoids h a p [] n k = tt
Chain-Avoids h a p ((b, c) ∷ q) n (e, next, at, rest) =
    (λ s. cc (ap h s), Chain-Avoids h a next q n rest)

End-ne : (b l : ℕ) (x : Node) (q : List Node) → Avoids b (x ∷ q) → End (some l) (x ∷ q) → b ≢ l
End-ne b l (a, c) [] f e = λ s. f.0 (cc)
End-ne b l x (y ∷ q) f e = End-ne b l y q f.1 e

pub Avoids-snoc : (b : ℕ) (q : List Node) (x : Node) → Avoids b q → b ≢ x.0 → Avoids b (q ++ x ∷ [])
Avoids-snoc b [] x f h = (h, tt)
Avoids-snoc b (y ∷ q) x f h = (f.0, Avoids-snoc b q x f.1 h)

Apart-snoc : (q : List Node) (x : Node) → Apart q → Avoids x.0 q → Apart (q ++ x ∷ [])
Apart-snoc [] x d f = (tt, tt)
Apart-snoc (y ∷ q) x d f = (Avoids-snoc y.0 q x d.0 (λ e. f.0 (sym e)), Apart-snoc q x d.1 f.1)

End-snoc : (q : List Node) (a : ℕ) (c : Call) → End (some a) (q ++ (a, c) ∷ [])
End-snoc [] a c = refl
End-snoc (x ∷ []) a c = refl
End-snoc (x ∷ y ∷ q) a c = End-snoc (y ∷ q) a c

-- The heap after `tail->next = job1`.
abbrev linked : Heap → ℕ → Call → ℕ → Job → Heap
linked h a c l job =
    update (update h a (some (record { next = none; call = c }))) l
      (some (record job { next = some a }))

Chain-snoc :
    (h : Heap) (p : Option ℕ) (x : Node) (q : List Node) (a : ℕ) (c : Call) (l : ℕ)
    → Avoids a (x ∷ q)
    → Apart (x ∷ q)
    → End (some l) (x ∷ q)
    → Chain h p (x ∷ q)
    → (job : Job) × (h l ≡ some job) × Chain (linked h a c l job) p ((x ∷ q) ++ (a, c) ∷ [])
Chain-snoc h p (b, cb) [] a c l f d e (s, next, at, rest) =
    let same : l ≡ b = ground arith in
    (
      record { next = next; call = cb },
      ap h same ∙ at,
      (s, some a, ground arith, (refl, none, ground (arith, f.0), refl)),
    )
Chain-snoc h p (b, cb) (y ∷ q) a c l f d e (s, next, at, rest) =
    let (job, found, new) = Chain-snoc h next y q a c l f.1 d.1 e rest in
    let apart : b ≢ l = End-ne b l y q d.0 e in (job, found, (s, next, ground (arith, f.0), new))

-- A queue that is not empty has a last node.
End-some : (t : Option ℕ) (x : Node) (q : List Node) → End t (x ∷ q) → (l : ℕ) × (t ≡ some l)
End-some t (a, c) [] e = (a, e)
End-some t x (y ∷ q) e = End-some t y q e

-- What an operation that queues or takes jobs leaves alone.
pub record Keeps (m n : Memory) : Type 0 where
  pub tc : n.pool.tc ≡ m.pool.tc
  pub shutdown : n.pool.shutdown ≡ m.pool.shutdown
  pub allocated : (b : ℕ) → m.heap b ≢ none → n.heap b ≢ none

-- What `tpool_add` does at a node that `malloc` returned.
pub record Adds (a : ℕ) (c : Call) (q : List Node) (m n : Memory) : Type 0 where
  pub queue : IsQueue n (q ++ (a, c) ∷ [])
  pub keeps : Keeps m n
  pub jc : n.pool.jc ≡ m.pool.jc

add_empty :
    (a : ℕ) (c : Call) (m : Memory)
    → IsQueue m []
    → (n : Memory) × (tpool_add a c m ≡ some n) × Adds a c [] m n
unfolding tpool_add
add_empty a c m k = (
  record {
    pool = record m.pool { head = some a; tail = some a };
    heap = update m.heap a (some (record { next = none; call = c }));
  },
  ground (arith, k.chain),
  record {
    queue = record { chain = (refl, none, ground arith, refl); end = refl; apart = (tt, tt) };
    keeps = record { tc = refl; shutdown = refl; allocated = λ b h. ground arith };
    jc = refl;
  },
)

add_linked :
    (a : ℕ) (c : Call) (m : Memory) (b l : ℕ) (job : Job)
    → m.pool.head ≡ some b
    → m.pool.tail ≡ some l
    → m.heap l ≡ some job
    → a ≢ l
    → tpool_add a c m
      ≡ some (record { pool = record m.pool { tail = some a }; heap = linked m.heap a c l job })
unfolding tpool_add
add_linked a c m b l job first last found apart = ground arith

add_more :
    (a : ℕ) (c : Call) (m : Memory) (x : Node) (q : List Node)
    → m.heap a ≡ none
    → IsQueue m (x ∷ q)
    → (n : Memory) × (tpool_add a c m ≡ some n) × Adds a c (x ∷ q) m n
add_more a c m x q new k =
    let free : Avoids a (x ∷ q) = Chain-Avoids m.heap a m.pool.head (x ∷ q) new k.chain in
    let (l, last) = End-some m.pool.tail x q k.end in
    let end : End (some l) (x ∷ q) = subst (λ t. End t (x ∷ q)) last k.end in
    let (job, found, chain) = Chain-snoc m.heap m.pool.head x q a c l free k.apart end k.chain in
    let apart : a ≢ l = End-ne a l x q free end in
    (
      record { pool = record m.pool { tail = some a }; heap = linked m.heap a c l job },
      add_linked a c m x.0 l job k.chain.0 last found apart,
      record {
        queue = record {
          chain = chain;
          end = End-snoc (x ∷ q) a c;
          apart = Apart-snoc (x ∷ q) (a, c) k.apart free;
        };
        keeps = record { tc = refl; shutdown = refl; allocated = λ b h. ground arith };
        jc = refl;
      },
    )

-- `tpool_add` at a node that `malloc` returned never faults and puts the job at the end.
pub add-Adds :
    (a : ℕ) (c : Call) (m : Memory) (q : List Node)
    → m.heap a ≡ none
    → IsQueue m q
    → (n : Memory) × (tpool_add a c m ≡ some n) × Adds a c q m n
add-Adds a c m [] new k = add_empty a c m k
add-Adds a c m (x ∷ q) new k = add_more a c m x q new k
