-- ===== src/Board/Slots.antt =====
-- Which slot a post gets (csieBulletinBoard/server.c).
use system_design.Base.{
  ℕ, zero, suc, ◌+◌, ◌-◌, ◌<◌, ◌≤◌, ◌≡◌, ◌⊎◌, inl, inr, refl, ap, sym, subst, ◌∙◌, Bool, true,
  Option, Option-cases, none, some, if◌then◌else◌, ltb, ◌==◌, List, [], ◌∷◌, ◌++◌, arith, NotIn,
  Distinct, length, length-append, is_none,
}
use system_design.Board.State.{codes, record_num, Server, next_index, upto}
use system_design.Board.Post.{Scan, probe_slots, wrap_last, scan_slots, post}
use system_design.Board.Probing.{
  available, first_of_slots, count_slots, probe_list, probe_slots-list, probe_list-append, Same,
  give, search_slots,
}

-- All ten slots, in the order in which a post looks at them.
abbrev pub order : ℕ → List ℕ
order k = upto (record_num - k) k ++ upto k 0

second_loop :
    (others : ℕ → Bool) (conn k : ℕ) (sc : Scan)
    → (if ltb 0 k then probe_slots others conn k 0 sc else sc)
      ≡ probe_list others conn (upto k 0) sc
unfolding probe_list
second_loop others conn zero sc = refl
second_loop others conn (suc k) sc =
    let positive : ltb 0 (suc k) ≡ true = ground arith in
    rw positive (probe_slots-list others conn (suc k) 0 sc)

scan_slots-list :
    (others : ℕ → Bool) (conn : ℕ) (s : Server)
    → scan_slots others conn s
      ≡ probe_list others conn
          (order (next_index s.last))
          (record { server = s; unlkc = record_num; interlk = 0 })
unfolding scan_slots
scan_slots-list others conn s =
    let start : Scan = record { server = s; unlkc = record_num; interlk = 0 } in
    let k = next_index s.last in
    second_loop others conn k (probe_slots others conn (record_num - k) k start)
    ∙ ap (probe_list others conn (upto k 0)) (probe_slots-list others conn (record_num - k) k start)
    ∙ sym (probe_list-append others conn (upto (record_num - k) k) (upto k 0) start)

-- The ten slots in any rotation are all different.
NotIn-upto : (p n m : ℕ) → (p < m) ⊎ (m + n ≤ p) → NotIn p (upto n m)
NotIn-upto p zero m h = tt
NotIn-upto p (suc n) m h = (λ e. omega arith, NotIn-upto p n (m + 1) (omega arith))

NotIn-append : (p : ℕ) (xs ys : List ℕ) → NotIn p xs → NotIn p ys → NotIn p (xs ++ ys)
NotIn-append p [] ys h k = k
NotIn-append p (x ∷ xs) ys h k = (h.0, NotIn-append p xs ys h.1 k)

Distinct-upto : (n m : ℕ) → Distinct (upto n m)
Distinct-upto zero m = tt
Distinct-upto (suc n) m = (NotIn-upto m n (m + 1) (inl (omega arith)), Distinct-upto n (m + 1))

Distinct-rotation : (n m k : ℕ) → k ≤ m → Distinct (upto n m ++ upto k 0)
Distinct-rotation zero m k h = Distinct-upto k 0
Distinct-rotation (suc n) m k h = (
  NotIn-append m (upto n (m + 1)) (upto k 0) (NotIn-upto m n (m + 1) (inl (omega arith)))
      (NotIn-upto m k 0 (inr (omega arith))),
  Distinct-rotation n (m + 1) k (omega arith),
)

length-upto : (n m : ℕ) → length (upto n m) ≡ n
length-upto zero m = refl
length-upto (suc n) m = ap suc (length-upto n (m + 1))

length-order : (k : ℕ) → k ≤ record_num → length (order k) ≡ record_num
length-order k h = omega (
  arith,
  length-append (upto (record_num - k) k) (upto k 0),
  length-upto (record_num - k) k,
  length-upto k 0,
)

count-first :
    (test : ℕ → Bool) (ms : List ℕ) → (count_slots test ms == 0) ≡ is_none (first_of_slots test ms)
count-first test [] = refl
count-first test (m ∷ ms) = ground (arith, count-first test ms)

pub wrap_last-lt :
    (s : Server) → next_index s.last ≤ record_num → next_index (wrap_last s).last < record_num
unfolding wrap_last
wrap_last-lt s h = ground arith

pub wrap_last-mylock : (s : Server) → (wrap_last s).mylock ≡ s.mylock
unfolding wrap_last
wrap_last-mylock s = ground arith

-- The slot behind the one given last; the first of the file comes behind the last.
abbrev pub behind : Option ℕ → ℕ
behind none = 0
behind (some l) = if l + 1 == record_num then 0 else l + 1

-- The first slot, from behind the last one given and around, on which nobody works.
abbrev pub granted : (ℕ → Bool) → Server → Option ℕ
granted others s = first_of_slots (available others s.mylock) (order (behind s.last))

-- The index of the slot given last, forgotten at the end of the file.
abbrev pub turned : Server → Server
turned s = record s { last = if next_index s.last == record_num then none else s.last }

-- Where the loops start.
pub wrap_last-behind : (s : Server) → next_index (wrap_last s).last ≡ behind s.last
unfolding wrap_last
wrap_last-behind s = elim (Option-cases s.last) [
  | inl e ↦ ground (arith, e)
  | inr (l, e) ↦ ground (arith, e)
]

-- What a post does, told by the slot it gets.
pub post_searches :
    (others : ℕ → Bool) (conn : ℕ) (s : Server)
    → next_index s.last ≤ record_num
    → Same (give conn (granted others s) (wrap_last s)) (post others conn s).0
      × ((post others conn s).1 ≡ (if is_none (granted others s) then codes "0" else codes "1"))
unfolding post
post_searches others conn s h =
    let w = wrap_last s in
    let k = behind s.last in
    let small : k < record_num =
      subst (λ i. i < record_num) (wrap_last-behind s) (wrap_last-lt s h) in
    let sc : Scan = record { server = w; unlkc = record_num; interlk = 0 } in
    let free : ℕ → Bool = available others w.mylock in
    let full = length-order k (omega arith) in
    let (same, counted) =
      search_slots others conn (order k) sc refl (omega (arith, full))
        (Distinct-rotation (record_num - k) k k (omega arith)) in
    let number : (probe_list others conn (order k) sc).unlkc ≡ count_slots free (order k) =
      omega (arith, counted, full) in
    let none_left : ((probe_list others conn (order k) sc).unlkc == 0)
        ≡ is_none (granted others s) =
      ap (λ (u : ℕ). u == 0) number
      ∙ count-first free (order k)
      ∙ ap (λ l. is_none (first_of_slots (available others l) (order k))) (wrap_last-mylock s) in
    rw (scan_slots-list others conn w, wrap_last-behind s, none_left)
      (
        subst
            (λ l.
              Same (give conn (first_of_slots (available others l) (order k)) w)
                (probe_list others conn (order k) sc).server)
            (wrap_last-mylock s) same,
        refl,
      )
