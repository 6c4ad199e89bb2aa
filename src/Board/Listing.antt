-- ===== src/Board/Listing.antt =====
-- What a "pull" and the greeting send (csieBulletinBoard/server.c).
use mathlib.Core.List.{append_assoc, append-nil}
use system_design.Base.{
  ℕ, zero, suc, ◌+◌, ◌<◌, ◌≡◌, inl, inr, refl, ap, ap₂, ltb, sym, ◌∙◌, Bool, Bool-cases, false, not,
  ◌&&◌, if◌then◌else◌, ◌==◌, List, [], ◌∷◌, ◌++◌, arith, bit,
}
use system_design.Board.State.{codes, Text, record_num, Post, Server, upto}
use system_design.Board.Pull.{
  newline, greet, rule, is_written, render, View, show, show_slots, list_posts, pull,
}
use system_design.Board.Probing.{available, count_slots, Same, Same-trans}

-- The posts of some slots as they are sent: those that nobody works on and that hold a text.
abbrev pub posts_text : (ℕ → Bool) → Server → List ℕ → Text
posts_text others s [] = []
posts_text others s (k ∷ ks) =
    (if available others s.mylock k && is_written (s.posts k) then render (s.posts k) else [])
    ++ posts_text others s ks

-- The slots that are locked, by another process or for a client of this one.
abbrev pub locked : (ℕ → Bool) → Server → ℕ → Bool
locked others s k = not (available others s.mylock k)

module _ (others : ℕ → Bool) (k : ℕ) (v : View) where
  abbrev shown : View
  shown = show others k v

  show-Same : Same v.server shown.server
  unfolding show
  show-Same = elim (Bool-cases (others k)) [
    | inl other ↦
        rw (other, show) (record { last = refl; slot_of = refl; mylock = refl; posts = refl })
    | inr free ↦ elim (Bool-cases (v.server.mylock k)) [
      | inl mine ↦
          rw (free, mine, show)
            (record { last = refl; slot_of = refl; mylock = refl; posts = refl })
      | inr open_slot ↦
          rw (free, open_slot, show)
            (record { last = refl; slot_of = refl; mylock = refl; posts = refl })
    ]
  ]

  show-count : shown.lockcount ≡ v.lockcount + bit (locked others v.server k)
  unfolding show
  show-count = ground arith

  show-text :
      shown.temp
      ≡ v.temp
        ++ (if available others v.server.mylock k && is_written (v.server.posts k)
            then render (v.server.posts k)
            else [])
  unfolding show
  show-text = ground (arith, append-nil v.temp)

  -- A slot that another process has not locked is left held exactly if a client works on it.
  show-held :
      (j : ℕ)
      → shown.server.held j
        ≡ (if k == j && not (others k) then v.server.mylock k else v.server.held j)
  unfolding show
  show-held j = ground arith

-- What the loop does over the `n` slots from `k`.
record Listed (others : ℕ → Bool) (n k : ℕ) (v w : View) : Type 0 where
  same : Same v.server w.server
  count : w.lockcount ≡ v.lockcount + count_slots (locked others v.server) (upto n k)
  text : w.temp ≡ v.temp ++ posts_text others v.server (upto n k)
  held :
      (j : ℕ)
      → w.server.held j ≡ (
          if not (ltb j k) && ltb j (k + n) && not (others j)
          then v.server.mylock j
          else v.server.held j)

-- The texts and the counts read nothing but `mylock` and the posts.
posts_text-Same :
    (others : ℕ → Bool) {s t : Server} (ks : List ℕ)
    → Same s t
    → posts_text others t ks ≡ posts_text others s ks
posts_text-Same others [] e = refl
posts_text-Same others (k ∷ ks) e =
    ap₂ ◌++◌
      (ap₂
        (λ (l : ℕ → Bool) (p : ℕ → Post).
          (if available others l k && is_written (p k) then render (p k) else []))
        e.mylock e.posts)
      (posts_text-Same others ks e)

locked-Same :
    (others : ℕ → Bool) {s t : Server} (ks : List ℕ)
    → Same s t
    → count_slots (locked others t) ks ≡ count_slots (locked others s) ks
locked-Same others ks e =
    ap (λ (l : ℕ → Bool). count_slots (λ k. not (available others l k)) ks) e.mylock

show_slots-Listed :
    (others : ℕ → Bool) (n k : ℕ) (v : View) → Listed others n k v (show_slots others n k v)
unfolding show_slots
show_slots-Listed others zero k v = record {
  same = record { last = refl; slot_of = refl; mylock = refl; posts = refl };
  count = omega arith;
  text = sym (append-nil v.temp);
  held = λ j. ground arith;
}
show_slots-Listed others (suc n) k v =
    let t : View = show others k v in
    let r = show_slots-Listed others n (k + 1) t in
    let same = show-Same others k v in
    record {
      same = Same-trans same r.same;
      count =
          omega (arith, r.count, show-count others k v, locked-Same others (upto n (k + 1)) same);
      text =
          r.text
          ∙ ap₂ ◌++◌ (show-text others k v) (posts_text-Same others (upto n (k + 1)) same)
          ∙ append_assoc v.temp _ _;
      held = λ j.
          ground (arith, r.held j, show-held others k v j, ap (λ (l : ℕ → Bool). l j) same.mylock);
    }

-- What a listing with some opening text sends, reports and leaves.
abbrev pub Lists : (ℕ → Bool) → Text → Server → View → Type 0
Lists others opening s v =
    (v.temp ≡ opening ++ posts_text others s (upto record_num 0) ++ rule)
    × (v.lockcount ≡ count_slots (locked others s) (upto record_num 0))
    × Same s v.server
    × ((k : ℕ) → k < record_num → others k ≡ false → v.server.held k ≡ s.mylock k)

list_posts-Lists :
    (others : ℕ → Bool) (opening : Text) (s : Server)
    → Lists others opening s (list_posts others opening s)
unfolding list_posts
list_posts-Lists others opening s =
    let r =
      show_slots-Listed others record_num 0
        (record { server = s; lockcount = 0; temp = opening }) in
    (
      ap (λ t. t ++ rule) r.text,
      omega (arith, r.count),
      r.same,
      λ k lt free. r.held k ∙ ground arith,
    )

-- "pull" sends the posts on which nobody works, in the order of the slots and between two rules; it
-- reports the number of the locked slots. It changes no post and no lock of a client, and keeps a lock
-- on the file only where a client of this server works on the slot.
pub pull_lists :
    (others : ℕ → Bool) (s : Server)
    → ((pull others s).temp ≡ rule ++ posts_text others s (upto record_num 0) ++ rule)
      × ((pull others s).lockcount ≡ count_slots (locked others s) (upto record_num 0))
      × Same s (pull others s).server
      × ((k : ℕ) → k < record_num → others k ≡ false → (pull others s).server.held k ≡ s.mylock k)
unfolding pull
pull_lists others s = list_posts-Lists others rule s

pub greet-Lists :
    (others : ℕ → Bool) (s : Server)
    → Lists others
        (rule ++ codes "Welcome to CSIE Bulletin board" ++ newline ++ rule)
        s
        (greet others s)
unfolding greet
greet-Lists others s = list_posts-Lists others _ s
