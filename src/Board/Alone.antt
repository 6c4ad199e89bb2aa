-- ===== src/Board/Alone.antt =====
-- A round in which one client alone has input (csieBulletinBoard/server.c, `main`).
use mathlib.Core.List.{append-nil}
use system_design.Base.{
  ℕ, zero, suc, ◌+◌, ◌≤◌, ◌<◌, ◌≡◌, ◌≢◌, inl, inr, refl, ◌⊎◌, sym, ap, subst, ◌∙◌, Bool, Bool-cases,
  true, false, not, ◌==◌, ◌&&◌, ◌>>=◌, [], ◌∷◌, Option-cases, some, arith, length, All,
}
use system_design.Board.State.{Text}
use system_design.Board.Command.{handle}
use system_design.Board.Connections.{
  Host, Arrival, respond, max_message_len, receive_m, serve_entry, serve_round,
}
use system_design.Board.Serving.{IsSound}
use system_design.Board.Visits.{callers, serve_all, Disturbed}
use system_design.Board.Rounds.{read_set, round_serves, no_callers_from}

receive_m_whole : (n : ℕ) (m : Text) → length m < n → All (λ c. c ≢ 0) m → receive_m n m ≡ some m
unfolding receive_m
receive_m_whole zero m lt f = absurd (omega arith)
receive_m_whole (suc n) [] lt f = refl
receive_m_whole (suc n) (c ∷ m) lt f =
    let byte : (c == 0) ≡ false = ground (arith, f.0) in
    rw (byte, receive_m_whole n m (omega arith) f.1) refl

served_alone :
    (a : Arrival) (fd : ℕ) (h : Host) (m : Text)
    → a.message fd ≡ m
    → receive_m max_message_len m ≡ some m
    → serve_all a (fd ∷ []) h
      ≡ (do (s, reply) ← handle a.others fd m h.server; some (respond fd fd s reply h))
unfolding serve_entry
served_alone a fd h m message whole = elim (Option-cases (handle a.others fd m h.server)) [
  | inl fault ↦ rw (message, whole, fault) refl
  | inr ((s, reply), e) ↦
      rw (message, whole, e) (ap (λ l. some ((respond fd fd s reply h).0, l)) (append-nil _))
]

module _ (listen maxfd : ℕ) (negative : (ℕ → Bool) → Bool) where
  only_caller :
      (fd : ℕ) (read_fds : ℕ → Bool) (n i : ℕ)
      → (fd == listen) ≡ false
      → ((j : ℕ) → read_fds j ≡ (fd == j))
      → i ≤ fd
      → fd < i + n
      → callers listen read_fds n i ≡ fd ∷ []
  only_caller fd read_fds zero i other f lo hi = absurd (omega arith)
  only_caller fd read_fds (suc n) i other f lo hi = elim (Bool-cases (fd == i)) [
    | inl here ↦
        let same : fd ≡ i = ground (arith, here) in
        let busy : (not (i == listen) && read_fds i) ≡ true =
          subst (λ j. (not (j == listen) && read_fds j) ≡ true) same
            (ground (arith, other, f fd)) in
        rw (busy, no_callers_from listen read_fds n (i + 1) (λ j low lt. f j ∙ ground arith))
          (ap (λ j. j ∷ []) (sym same))
    | inr later ↦
        let idle : (not (i == listen) && read_fds i) ≡ false = ground (arith, f i, later) in
        rw (idle, only_caller fd read_fds n (i + 1) other f (ground (arith, later)) (omega arith))
          refl
  ]

  -- The whole message of the client is read.
  abbrev pub Readable : Text → Type 0
  Readable m = (length m < max_message_len) × All (λ c. c ≢ 0) m

  pub alone_round :
      (fd : ℕ) (a : Arrival) (h : Host)
      → IsSound h
      → (fd == listen) ≡ false
      → fd < maxfd
      → h.master fd ≡ true
      → ((j : ℕ) → a.ready j ≡ (fd == j))
      → (m : Text) → a.message fd ≡ m
      → Readable m
      → Disturbed negative (read_set a h) (serve_round listen maxfd negative a h)
        ⊎ (serve_round listen maxfd negative a h
            ≡ (do (s, reply) ← handle a.others fd m h.server; some (respond fd fd s reply h)))
  alone_round fd a h v other lt in_use alone m message (short, bytes) =
      let only : (j : ℕ) → read_set a h j ≡ (fd == j) = λ j. elim (Bool-cases (fd == j)) [
        | inl here ↦
            let same : fd ≡ j = ground (arith, here) in
            let open_j : h.master j ≡ true = subst (λ i. h.master i ≡ true) same in_use in
            rw (open_j, alone j) refl
        | inr there ↦ ground (arith, alone j, there)
      ] in
      let quiet : read_set a h listen ≡ false = only listen ∙ other in
      let one : callers listen (read_set a h) maxfd 0 ≡ fd ∷ [] =
        only_caller fd (read_set a h) maxfd 0 other only (omega arith) (omega arith) in
      elim (round_serves listen maxfd negative a h v quiet) [
        | inl lost ↦ inl lost
        | inr served ↦ inr (
            served
            ∙ ap (λ l. serve_all a l h) one
            ∙ served_alone a fd h m message (receive_m_whole max_message_len m short bytes))
      ]
