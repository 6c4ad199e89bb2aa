-- ===== src/Board/Posting.antt =====
-- A post over the rounds of the server, from the bytes of the client to the file
-- (csieBulletinBoard/server.c, `main`).
use system_design.Base.{
  ℕ, ◌<◌, ◌≡◌, ◌≢◌, ◌⊎◌, inl, inr, refl, ap, ◌∙◌, Bool, true, false, ◌==◌, update, [], ◌∷◌, some,
  arith, length, All, All-append,
}
use system_design.Board.State.{Text, codes, Server, from_len, content_len}
use system_design.Board.Post.{post}
use system_design.Board.Command.{sent, silent, handle}
use system_design.Board.Message.{submission, Lacks}
use system_design.Board.Slots.{granted, post_searches}
use system_design.Board.Interleaving.{post_then_store}
use system_design.Board.Dialogue.{handle-submission, handle-post, length-submission}
use system_design.Board.Connections.{
  Host, Arrival, sends, send_m, first_bytes, respond, serve_round, serve_rounds,
}
use system_design.Board.Serving.{IsSound, respond-IsSound}
use system_design.Board.Sessions.{handle-IsValid}
use system_design.Board.Capacity.{handle-Tidy}
use system_design.Board.Visits.{Disturbed}
use system_design.Board.Rounds.{read_set}
use system_design.Board.Alone.{alone_round}

submission-Readable :
    (from content : Text)
    → length from < from_len
    → length content < content_len
    → All (λ c. c ≢ 0) from
    → All (λ c. c ≢ 0) content
    → (length (submission from content) < 2000) × All (λ c. c ≢ 0) (submission from content)
submission-Readable from content lf lc nf nc = (
  omega (arith, length-submission from content),
  unfold submission in
      (
        (λ e. omega (arith, e)),
        (
          (λ e. omega (arith, e)),
          (
            (λ e. omega (arith, e)),
            (
              (λ e. omega (arith, e)),
              All-append (λ c. c ≢ 0) from (b'+' ∷ content) nf ((λ e. omega (arith, e)), nc),
            ),
          ),
        ),
      ),
)

module _ (listen maxfd : ℕ) (negative : (ℕ → Bool) → Bool) where
  -- Client `fd` alone sends "post" in one round, and in the next, again alone, its name and its text,
  -- which fit the record and hold no NUL, no plus sign and no opening bracket. If the server grants it
  -- a slot, it answers "1" and nothing else; then the text stands in the slot, the other posts and the
  -- slots in work are as before, and so is the table of clients. The host is sound.
  -- Or else `FD_ISSET(-1, ...)` is true of what `select` leaves in one of the rounds, and the server
  -- ends.
  pub rounds_post :
      (fd p f : ℕ) (from : Text) (c : ℕ) (content : Text) (a b : Arrival) (h : Host)
      → IsSound h
      → (fd == listen) ≡ false
      → fd < maxfd
      → h.master fd ≡ true
      → ((j : ℕ) → a.ready j ≡ (fd == j))
      → ((j : ℕ) → b.ready j ≡ (fd == j))
      → a.message fd ≡ codes "post"
      → b.message fd ≡ submission (f ∷ from) (c ∷ content)
      → granted a.others h.server ≡ some p
      → (length (f ∷ from) < from_len) × (length (c ∷ content) < content_len)
      → Lacks b'+' (f ∷ from) × Lacks b'+' (c ∷ content)
      → Lacks b'[' (f ∷ from) × Lacks b'[' (c ∷ content)
      → All (λ x. x ≢ 0) (f ∷ from) × All (λ x. x ≢ 0) (c ∷ content)
      → Disturbed negative (read_set a h) (serve_rounds listen maxfd negative (a ∷ b ∷ []) h)
        ⊎ Disturbed negative (read_set b h) (serve_rounds listen maxfd negative (a ∷ b ∷ []) h)
        ⊎ ((k : Host) × (serve_rounds listen maxfd negative (a ∷ b ∷ []) h
              ≡ some (k, sends fd (codes "1") ∷ []))
            × (k.server.posts
                ≡ update h.server.posts p (record { from = f ∷ from; content = c ∷ content }))
            × ((j : ℕ) → k.server.mylock j ≡ h.server.mylock j)
            × (k.conn_fd ≡ h.conn_fd))
  unfolding serve_rounds respond
  rounds_post fd p f from c content a b h v other lt in_use first second asked submitted free
        (lf, lc) (pf, pc) (bf, bc) (nf, nc) =
      let s : Server = (post a.others fd h.server).0 in
      let (_, reply) = post_searches a.others fd h.server v.valid.last in
      let one : (post a.others fd h.server).1 ≡ codes "1" = rw (reply, free) refl in
      let h₁ : Host = (respond fd fd s (sent (codes "1")) h).0 in
      let posted : handle a.others fd (codes "post") h.server ≡ some (s, sent (codes "1")) =
        handle-post a.others fd h.server ∙ ap (λ t. some (s, sent t)) one in
      let (t, stored, posts, mylock) =
        post_then_store a.others fd p (f ∷ from) (c ∷ content) h.server v.valid.last free lf lc in
      let v₁ : IsSound h₁ =
        respond-IsSound fd s (sent (codes "1")) h v
          (handle-IsValid a.others fd (codes "post") h.server s (sent (codes "1")) v.valid posted)
          (handle-Tidy a.others fd (codes "post") h.server s (sent (codes "1")) v.valid.last v.tidy
            posted) in
      let h₂ : Host = (respond fd fd t silent h₁).0 in
      elim (alone_round listen maxfd negative fd a h v other lt in_use first (codes "post") asked
        (omega arith, omega arith)) [
          | inl (set, ends) ↦ inl (set, rw ends refl)
          | inr round₁ ↦
              let served₁ : serve_round listen maxfd negative a h
                  ≡ some (h₁, sends fd (codes "1") ∷ []) =
                round₁ ∙ rw posted (unfold send_m first_bytes in refl) in
              elim (alone_round listen maxfd negative fd b h₁ v₁ other lt in_use second
                (submission (f ∷ from) (c ∷ content)) submitted
                (submission-Readable (f ∷ from) (c ∷ content) lf lc nf nc)) [
                  | inl (set, ends) ↦ inr (inl (set, rw (served₁, ends) refl))
                  | inr round₂ ↦
                      let served₂ : serve_round listen maxfd negative b h₁ ≡ some (h₂, []) =
                        round₂
                        ∙ rw (handle-submission b.others fd s f from c content pf pc bf bc, stored)
                            refl in
                      inr (inr (h₂, rw (served₁, served₂) refl, posts, mylock, refl))
                ]
        ]
