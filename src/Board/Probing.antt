-- ===== src/Board/Probing.antt =====
-- The loops of the request "post", slot by slot (csieBulletinBoard/server.c).
use system_design.Base.{
  ℕ, zero, suc, ◌+◌, ◌-◌, ◌<◌, ◌≤◌, ◌≡◌, ◌≢◌, ◌⊎◌, inl, inr, refl, ap, sym, subst, ◌∙◌, Bool,
  Bool-cases, true, false, not, ◌&&◌, Option, none, some, if◌then◌else◌, update, List, [], ◌∷◌,
  ◌++◌, arith, bit, NotIn, Distinct, length,
}
use system_design.Board.State.{Server, lock_slot, upto}
use system_design.Board.Post.{Scan, take_slot, probe, probe_slots}

-- Neither another process nor a client of this server writes to the slot.
abbrev pub available : (ℕ → Bool) → (ℕ → Bool) → ℕ → Bool
available others mylock m = not (others m) && not (mylock m)

abbrev pub first_of_slots : (ℕ → Bool) → List ℕ → Option ℕ
first_of_slots test [] = none
first_of_slots test (m ∷ ms) = if test m then some m else first_of_slots test ms

abbrev pub count_slots : (ℕ → Bool) → List ℕ → ℕ
count_slots test [] = 0
count_slots test (m ∷ ms) = bit (test m) + count_slots test ms

unfoldable pub probe_list : (ℕ → Bool) → ℕ → List ℕ → Scan → Scan
probe_list others conn [] sc = sc
probe_list others conn (m ∷ ms) sc = probe_list others conn ms (probe others conn m sc)

pub probe_slots-list :
    (others : ℕ → Bool) (conn n m : ℕ) (sc : Scan)
    → probe_slots others conn n m sc ≡ probe_list others conn (upto n m) sc
unfolding probe_slots probe_list
probe_slots-list others conn zero m sc = refl
probe_slots-list others conn (suc n) m sc = probe_slots-list others conn n (m + 1) _

pub probe_list-append :
    (others : ℕ → Bool) (conn : ℕ) (xs ys : List ℕ) (sc : Scan)
    → probe_list others conn (xs ++ ys) sc
      ≡ probe_list others conn ys (probe_list others conn xs sc)
unfolding probe_list
probe_list-append others conn [] ys sc = refl
probe_list-append others conn (x ∷ xs) ys sc = probe_list-append others conn xs ys _

-- Two servers that differ at most in the locks that they hold on the file.
pub record Same (s t : Server) : Type 0 where
  pub last : t.last ≡ s.last
  pub slot_of : t.slot_of ≡ s.slot_of
  pub mylock : t.mylock ≡ s.mylock
  pub posts : t.posts ≡ s.posts

pub Same-trans : {s t u : Server} → Same s t → Same t u → Same s u
Same-trans a b = record {
  last = b.last ∙ a.last;
  slot_of = b.slot_of ∙ a.slot_of;
  mylock = b.mylock ∙ a.mylock;
  posts = b.posts ∙ a.posts;
}

-- What giving the slot `o` to a client does.
abbrev pub give : ℕ → Option ℕ → Server → Server
give conn none s = s
give conn (some m) s = take_slot conn m s

give-Same :
    {s t : Server} (conn : ℕ) (o : Option ℕ) → Same s t → Same (give conn o s) (give conn o t)
give-Same conn none e = e
give-Same conn (some m) e = record {
  last = refl;
  slot_of = ap (λ f. update f conn (some m)) e.slot_of;
  mylock = ap (λ f. update f m true) e.mylock;
  posts = e.posts;
}

module _ (others : ℕ → Bool) (conn m : ℕ) (sc : Scan) where
  abbrev here : Bool
  here = available others sc.server.mylock m

  abbrev next : Scan
  next = probe others conn m sc

  probe-count : 0 < sc.unlkc → next.unlkc + 1 ≡ bit here + sc.unlkc
  unfolding probe
  probe-count h = ground arith

  probe-other : others m ≡ true → next ≡ record sc { unlkc = sc.unlkc - 1 }
  unfolding probe
  probe-other e = ground arith

  probe-mine :
      others m ≡ false
      → sc.server.mylock m ≡ true
      → next ≡ record sc { server = lock_slot m sc.server; unlkc = sc.unlkc - 1 }
  unfolding probe
  probe-mine e f = ground arith

  probe-late :
      others m ≡ false
      → sc.server.mylock m ≡ false
      → sc.interlk ≢ 0
      → next ≡ record sc { server = lock_slot m sc.server }
  unfolding probe
  probe-late e f h = ground arith

  probe-take :
      others m ≡ false
      → sc.server.mylock m ≡ false
      → sc.interlk ≡ 0
      → next
        ≡ record sc { server = take_slot conn m (lock_slot m sc.server); interlk = sc.interlk + 1 }
  unfolding probe
  probe-take e f h = ground arith

  -- Only the counters and the locks move, unless a slot is taken.
  abbrev Kept : Scan → Type 0
  Kept t = Same sc.server t.server × (t.interlk ≡ sc.interlk)

  Kept-lock : (k : ℕ) → Kept (record sc { server = lock_slot m sc.server; unlkc = k })
  Kept-lock k = (record { last = refl; slot_of = refl; mylock = refl; posts = refl }, refl)

  probe-Kept : (sc.interlk ≢ 0) ⊎ (here ≡ false) → Kept next
  probe-Kept h = elim (Bool-cases (others m)) [
    | inl other ↦
        subst Kept (sym (probe-other other))
          (record { last = refl; slot_of = refl; mylock = refl; posts = refl }, refl)
    | inr free ↦ elim (Bool-cases (sc.server.mylock m)) [
      | inl mine ↦ subst Kept (sym (probe-mine free mine)) (Kept-lock (sc.unlkc - 1))
      | inr open_slot ↦
          subst Kept (sym (probe-late free open_slot (late h free open_slot))) (Kept-lock sc.unlkc)
    ]
  ]
    where
      late :
          (sc.interlk ≢ 0) ⊎ (here ≡ false)
          → others m ≡ false
          → sc.server.mylock m ≡ false
          → sc.interlk ≢ 0
      late (inl h) e f = h
      late (inr h) e f = ground arith

  probe-gives :
      here ≡ true
      → sc.interlk ≡ 0
      → Same (take_slot conn m sc.server) next.server × (next.interlk ≢ 0)
  probe-gives e h =
      subst (λ (t : Scan). Same (take_slot conn m sc.server) t.server × (t.interlk ≢ 0))
        (sym (probe-take (ground arith) (ground arith) h))
        (record { last = refl; slot_of = refl; mylock = refl; posts = refl }, λ z. omega arith)

-- Once a slot is taken, the loops only count.
found :
    (others : ℕ → Bool) (conn : ℕ) (ms : List ℕ) (sc : Scan)
    → sc.interlk ≢ 0
    → length ms ≤ sc.unlkc
    → Same sc.server (probe_list others conn ms sc).server
      × (count_slots (available others sc.server.mylock) ms + sc.unlkc
          ≡ (probe_list others conn ms sc).unlkc + length ms)
unfolding probe_list
found others conn [] sc h room =
    (record { last = refl; slot_of = refl; mylock = refl; posts = refl }, omega arith)
found others conn (m ∷ ms) sc h room =
    let t : Scan = probe others conn m sc in
    let (same, i) = probe-Kept others conn m sc (inl h) in
    let c = probe-count others conn m sc (omega arith) in
    let (rest, d) = found others conn ms t (λ z. h (sym i ∙ z)) (omega (arith, c)) in
    (
      Same-trans same rest,
      omega (arith, c, d, ap (λ (l : ℕ → Bool). count_slots (available others l) ms) same.mylock),
    )

count-taken :
    (others mylock : ℕ → Bool) (m : ℕ) (ms : List ℕ)
    → NotIn m ms
    → count_slots (available others (update mylock m true)) ms
      ≡ count_slots (available others mylock) ms
count-taken others mylock m [] h = refl
count-taken others mylock m (x ∷ ms) h =
    let same : update mylock m true x ≡ mylock x = ground (arith, h.0) in
    rw same (ap (◌+◌ (bit (available others mylock x))) (count-taken others mylock m ms h.1))

-- The loops find the first slot of the list that is available, and count the available ones.
pub search_slots :
    (others : ℕ → Bool) (conn : ℕ) (ms : List ℕ) (sc : Scan)
    → sc.interlk ≡ 0
    → length ms ≤ sc.unlkc
    → Distinct ms
    → Same
        (give conn (first_of_slots (available others sc.server.mylock) ms) sc.server)
        (probe_list others conn ms sc).server
      × (count_slots (available others sc.server.mylock) ms + sc.unlkc
          ≡ (probe_list others conn ms sc).unlkc + length ms)
unfolding probe_list
search_slots others conn [] sc h room d =
    (record { last = refl; slot_of = refl; mylock = refl; posts = refl }, omega arith)
search_slots others conn (m ∷ ms) sc h room d =
    let t : Scan = probe others conn m sc in
    let c = probe-count others conn m sc (omega arith) in
    elim (Bool-cases (available others sc.server.mylock m)) [
      | inl free ↦
          let (same, i) = probe-gives others conn m sc free h in
          let (rest, e) = found others conn ms t i (omega (arith, c, ap bit free)) in
          rw free (
            Same-trans same rest,
            omega (
              arith,
              c,
              e,
              ap bit free,
              ap (λ (l : ℕ → Bool). count_slots (available others l) ms) same.mylock,
              count-taken others sc.server.mylock m ms d.0,
            ),
          )
      | inr busy ↦
          let (same, i) = probe-Kept others conn m sc (inr busy) in
          let (rest, e) =
            search_slots others conn ms t (i ∙ h) (omega (arith, c, ap bit busy)) d.1 in
          let o = first_of_slots (available others t.server.mylock) ms in
          let moved : Same (give conn o sc.server) (probe_list others conn ms t).server =
            Same-trans (give-Same conn o same) rest in
          rw busy (
            subst
                (λ (l : ℕ → Bool).
                  Same (give conn (first_of_slots (available others l) ms) sc.server)
                    (probe_list others conn ms t).server)
                same.mylock moved,
            omega (
              arith,
              c,
              e,
              ap bit busy,
              ap (λ (l : ℕ → Bool). count_slots (available others l) ms) same.mylock,
            ),
          )
    ]
