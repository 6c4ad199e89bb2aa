-- ===== src/Board/Interleaving.antt =====
-- A post and its submission, and what happens when another client posts between the two
-- (csieBulletinBoard/server.c).
use system_design.Base.{
  ℕ, ◌<◌, ◌≤◌, ◌≡◌, ◌≢◌, inl, inr, ap, subst, ◌∙◌, Bool, Bool-cases, true, false, ◌==◌, update,
  List, [], ◌∷◌, arith, ltb, length, Option, some,
}
use system_design.Board.State.{Text, from_len, content_len, record_num, Server, next_index}
use system_design.Board.Post.{post, wrap_last}
use system_design.Board.Submit.{fits_field, store_post}
use system_design.Board.Probing.{available, first_of_slots, Same, give}
use system_design.Board.Slots.{granted, post_searches, wrap_last-mylock}

first_of_slots-test :
    (test : ℕ → Bool) (ms : List ℕ) (p : ℕ) → first_of_slots test ms ≡ some p → test p ≡ true
first_of_slots-test test [] p e = cc
first_of_slots-test test (m ∷ ms) p e = elim (Bool-cases (test m)) [
  | inl here ↦ subst (λ k. test k ≡ true) (cc (here, e)) here
  | inr no_here ↦ first_of_slots-test test ms p (ground arith)
]

-- The fields after a post that got slot `p`.
record Posted (others : ℕ → Bool) (conn p : ℕ) (s t : Server) : Type 0 where
  free : s.mylock p ≡ false
  last : t.last ≡ some p
  slot_of : t.slot_of ≡ update s.slot_of conn (some p)
  mylock : t.mylock ≡ update s.mylock p true
  posts : t.posts ≡ s.posts

pub wrap_last-posts : (s : Server) → (wrap_last s).posts ≡ s.posts
unfolding wrap_last
wrap_last-posts s = ground arith

wrap_last-slot_of : (s : Server) → (wrap_last s).slot_of ≡ s.slot_of
unfolding wrap_last
wrap_last-slot_of s = ground arith

post-Posted :
    (others : ℕ → Bool) (conn p : ℕ) (s : Server)
    → next_index s.last ≤ record_num
    → granted others s ≡ some p
    → Posted others conn p s (post others conn s).0
post-Posted others conn p s h e =
    let g =
      subst (λ o. Same (give conn o (wrap_last s)) (post others conn s).0) e
        (post_searches others conn s h).0 in
    let a = first_of_slots-test (available others s.mylock) _ p e in
    record {
      free = ground arith;
      last = g.last;
      slot_of = g.slot_of ∙ ap (λ f. update f conn (some p)) (wrap_last-slot_of s);
      mylock = g.mylock ∙ ap (λ f. update f p true) (wrap_last-mylock s);
      posts = g.posts ∙ wrap_last-posts s;
    }

abbrev pub with_texts : Text → Text → Server → Server
with_texts f c s = record s { str1 = f; str2 = c }

update_self {ℓ} : {A : Type ℓ} (m : ℕ → A) (p : ℕ) (a : A) → update m p a p ≡ a
update_self m p a = ground arith

still_locked :
    (m : ℕ → Bool) (p q : ℕ) → m p ≡ true → m q ≡ false → update (update m q true) q false p ≡ true
still_locked m p q hp hq = elim (Bool-cases (q == p)) [
  | inl same ↦ let e : q ≡ p = ground arith in absurd (cc (hp, hq, ap m e))
  | inr apart ↦ rw apart hp
]

stored : ℕ → ℕ → Text → Text → Server → Server
stored p l f c s = record s {
  str1 = f;
  str2 = c;
  posts = update s.posts p (record { from = f; content = c });
  held = update s.held p false;
  mylock = update s.mylock l false;
}

-- What a submission does, with the slot of its client and the last slot given.
store_post-stored :
    (conn p l : ℕ) (f c : Text) (s : Server)
    → length f < from_len
    → length c < content_len
    → s.slot_of conn ≡ some p
    → s.last ≡ some l
    → store_post conn (with_texts f c s) ≡ some (stored p l f c s)
unfolding store_post fits_field stored
store_post-stored conn p l f c s hf hc e g =
    let from_fits : ltb (length f) from_len ≡ true = ground arith in
    let content_fits : ltb (length c) content_len ≡ true = ground arith in
    simp (from_fits, content_fits, e, g)

module _ (others : ℕ → Bool) (conn p : ℕ) (f c : Text) (s : Server) where
  -- A client that posts and then submits, with no other post in between: its text stands in the slot
  -- that it was given, the other posts are as before, and every slot that was free is free again.
  pub post_then_store :
      next_index s.last ≤ record_num
      → granted others s ≡ some p
      → length f < from_len
      → length c < content_len
      → (t : Server) × (store_post conn (with_texts f c (post others conn s).0) ≡ some t)
        × (t.posts ≡ update s.posts p (record { from = f; content = c }))
        × ((k : ℕ) → t.mylock k ≡ s.mylock k)
  unfolding stored
  post_then_store h e hf hc =
      let t = (post others conn s).0 in
      let d = post-Posted others conn p s h e in
      let own : t.slot_of conn ≡ some p =
        ap (λ (g : ℕ → Option ℕ). g conn) d.slot_of ∙ ground arith in
      (
        stored p p f c t,
        store_post-stored conn p p f c t hf hc own d.last,
        ap (λ g. update g p (record { from = f; content = c })) d.posts,
        λ k. ground (arith, ap (λ (g : ℕ → Bool). g k) d.mylock, d.free),
      )

  module _ (other q : ℕ) where
    -- If another client posts in between, the submission clears the wrong lock: the slot of the one
    -- that submitted stays locked, and the slot on which the other client still works is unlocked.
    pub interleaved_post_unlocks_other :
        next_index s.last ≤ record_num
        → next_index (post others conn s).0.last ≤ record_num
        → conn ≢ other
        → granted others s ≡ some p
        → granted others (post others conn s).0 ≡ some q
        → length f < from_len
        → length c < content_len
        → (t : Server) × (store_post conn
              (with_texts f c (post others other (post others conn s).0).0)
            ≡ some t)
          × (t.mylock p ≡ true)
          × (t.mylock q ≡ false)
    unfolding stored
    interleaved_post_unlocks_other h h' ne e e' hf hc =
        let t = (post others conn s).0 in
        let u = (post others other t).0 in
        let d = post-Posted others conn p s h e in
        let d' = post-Posted others other q t h' e' in
        let own : u.slot_of conn ≡ some p =
          ap (λ (g : ℕ → Option ℕ). g conn) d'.slot_of
          ∙ ground (arith, ap (λ (g : ℕ → Option ℕ). g conn) d.slot_of) in
        (
          stored p q f c u,
          store_post-stored conn p q f c u hf hc own d'.last,
          ap (λ (g : ℕ → Bool). update g q false p) d'.mylock
              ∙ still_locked t.mylock p q
                  (ap (λ (g : ℕ → Bool). g p) d.mylock ∙ update_self s.mylock p true) d'.free,
          update_self u.mylock q false,
        )
