-- ===== src/Board/Capacity.antt =====
-- The listing of the posts and the buffers that it goes through (csieBulletinBoard/server.c).
use system_design.Base.{
  ℕ, zero, suc, ◌+◌, ◌*◌, ◌≤◌, ◌<◌, ◌≡◌, inl, inr, refl, ap, sym, subst, ◌∙◌, Bool, Bool-cases,
  Option, Option-cases, none, some, ltb, ◌==◌, List, [], ◌∷◌, ◌++◌, ◌&&◌, arith, update, length,
  length-append, text_eq,
}
use system_design.Board.State.{
  Text, codes, record_num, from_len, content_len, Post, Server, next_index, upto,
}
use system_design.Board.Post.{post, wrap_last}
use system_design.Board.Pull.{pull, greet, rule, render, is_written}
use system_design.Board.Submit.{fits_field, store_post, assign_tokens, split_plus}
use system_design.Board.Command.{Reply, has_marker, remove_marker, submit, handle}
use system_design.Board.Probing.{give, available}
use system_design.Board.Slots.{granted, post_searches}
use system_design.Board.Listing.{posts_text, pull_lists, greet-Lists}
use system_design.Board.Interleaving.{wrap_last-posts}
use system_design.Board.Connections.{send_m, first_bytes}

-- The texts of a record with their closing NUL fit its fields.
abbrev pub FitsRecord : Post → Type 0
FitsRecord p = (length p.from < from_len) × (length p.content < content_len)

abbrev pub Tidy : Server → Type 0
Tidy s = (k : ℕ) → FitsRecord (s.posts k)

length-render : (p : Post) → FitsRecord p → length (render p) ≤ 40
unfolding render
length-render p (f, c) = grind (arith, length-append)

length-posts_text :
    (others : ℕ → Bool) (s : Server) (ks : List ℕ)
    → Tidy s
    → length (posts_text others s ks) ≤ 40 * length ks
length-posts_text others s [] tidy = omega arith
length-posts_text others s (k ∷ ks) tidy =
    let rest = length-posts_text others s ks tidy in
    let one = length-render (s.posts k) (tidy k) in
    elim (Bool-cases (available others s.mylock k && is_written (s.posts k))) [
      | inl shown ↦
          rw shown
            (omega (arith, length-append (render (s.posts k)) (posts_text others s ks), one, rest))
      | inr hidden ↦ rw hidden (omega (arith, rest))
    ]

first_bytes_all : (n : ℕ) (t : Text) → length t ≤ n → first_bytes n t ≡ t
unfolding first_bytes
first_bytes_all zero [] h = refl
first_bytes_all zero (c ∷ t) h = absurd (omega arith)
first_bytes_all (suc n) [] h = refl
first_bytes_all (suc n) (c ∷ t) h = ap (λ u. c ∷ u) (first_bytes_all n t (omega arith))

module _ (others : ℕ → Bool) (s : Server) (tidy : Tidy s) where
  -- If the texts of the records fit their fields, a listing and a greeting have fewer than 2000 bytes, so
  -- that they fit `temp`, and `sendM` cuts nothing off.
  pub listings_fit :
      (length (pull others s).temp < 2000)
      × (length (greet others s).temp < 2000)
      × (send_m (pull others s).temp ≡ (pull others s).temp)
      × (send_m (greet others s).temp ≡ (greet others s).temp)
  listings_fit =
      let (pulled, _, _, _) = pull_lists others s in
      let (greeted, _, _, _) = greet-Lists others s in
      let posts = posts_text others s (upto record_num 0) in
      let small = length-posts_text others s (upto record_num 0) tidy in
      let long : length (posts ++ rule) ≡ length posts + 31 = length-append posts rule in
      let a : length (pull others s).temp < 2000 = rw pulled (omega (arith, small, long)) in
      let b : length (greet others s).temp < 2000 = rw greeted (omega (arith, small, long)) in
      (
        a,
        b,
        unfold send_m in first_bytes_all 1999 _ (omega (arith, a)),
        unfold send_m in first_bytes_all 1999 _ (omega (arith, b)),
      )

Tidy-posts : (s t : Server) → t.posts ≡ s.posts → Tidy s → Tidy t
Tidy-posts s t e tidy k = subst (λ (f : ℕ → Post). FitsRecord (f k)) (sym e) (tidy k)

give-posts : (conn : ℕ) (o : Option ℕ) (s : Server) → (give conn o s).posts ≡ s.posts
give-posts conn none s = refl
give-posts conn (some p) s = refl

assign_tokens-posts : (ts : List Text) (s : Server) → (assign_tokens ts s).posts ≡ s.posts
unfolding assign_tokens
assign_tokens-posts [] s = refl
assign_tokens-posts (t ∷ []) s = refl
assign_tokens-posts (t ∷ u ∷ us) s = refl

store_post-Tidy : (conn : ℕ) (s t : Server) → Tidy s → store_post conn s ≡ some t → Tidy t
unfolding store_post fits_field
store_post-Tidy conn s t tidy e k = elim (Bool-cases (ltb (length s.str1) from_len)) [
  | inr long ↦ absurd (ground (arith, e, long))
  | inl f ↦ elim (Bool-cases (ltb (length s.str2) content_len)) [
    | inr long ↦ absurd (ground (arith, e, f, long))
    | inl g ↦ elim (Option-cases (s.slot_of conn)) [
      | inl no_slot ↦ absurd (ground (arith, e, f, g, no_slot))
      | inr (slot, o) ↦ elim (Option-cases s.last) [
        | inl no_last ↦ absurd (ground (arith, e, f, g, o, no_last))
        | inr (l, q) ↦
            let stored : t.posts
                ≡ update s.posts slot (record { from = s.str1; content = s.str2 }) =
              ground (arith, e, f, g, o, q) in
            subst (λ (m : ℕ → Post). FitsRecord (m k)) (sym stored)
              (elim (Bool-cases (slot == k)) [
                | inl here ↦ rw here (ground (arith, f), ground (arith, g))
                | inr other ↦ rw other (tidy k)
              ])
      ]
    ]
  ]
]

-- Whatever a client sends, if the texts of all records fit their fields before, they do after.
pub handle-Tidy :
    (others : ℕ → Bool) (conn : ℕ) (command : Text) (s t : Server) (r : Reply)
    → next_index s.last ≤ record_num
    → Tidy s
    → handle others conn command s ≡ some (t, r)
    → Tidy t
unfolding handle submit
handle-Tidy others conn command s t r room tidy e = elim (Bool-cases (has_marker command)) [
  | inl marked ↦ elim (Option-cases (submit conn command s)) [
    | inl fault ↦ absurd (ground (arith, e, marked, fault))
    | inr (u, run) ↦
        let same : u ≡ t = ground (arith, e, marked, run) in
        let ts = split_plus [] (remove_marker command) in
        let ready = Tidy-posts s (assign_tokens ts s) (assign_tokens-posts ts s) tidy in
        subst Tidy same (store_post-Tidy conn (assign_tokens ts s) u ready run)
  ]
  | inr plain ↦ elim (Bool-cases (text_eq command (codes "post"))) [
    | inl is_post ↦
        let same : (post others conn s).0 ≡ t = ground (arith, e, plain, is_post) in
        subst Tidy same (
          Tidy-posts s (post others conn s).0
            ((post_searches others conn s room).0.posts
              ∙ give-posts conn (granted others s) (wrap_last s)
              ∙ wrap_last-posts s)
            tidy)
    | inr other ↦ elim (Bool-cases (text_eq command (codes "pull"))) [
      | inl is_pull ↦
          let same : (pull others s).server ≡ t = ground (arith, e, plain, other, is_pull) in
          let (_, _, kept, _) = pull_lists others s in
          subst Tidy same (Tidy-posts s (pull others s).server kept.posts tidy)
      | inr neither ↦
          let same : s ≡ t = ground (arith, e, plain, other, neither) in subst Tidy same tidy
    ]
  ]
]

pub greet-Tidy : (others : ℕ → Bool) (s : Server) → Tidy s → Tidy (greet others s).server
greet-Tidy others s tidy =
    let (_, _, kept, _) = greet-Lists others s in
    Tidy-posts s (greet others s).server kept.posts tidy
