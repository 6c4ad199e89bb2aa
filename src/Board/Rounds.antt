-- ===== src/Board/Rounds.antt =====
-- The server's rounds from the start on (csieBulletinBoard/server.c, `main`).
use system_design.Base.{
  ℕ, zero, suc, ◌+◌, ◌≤◌, ◌<◌, ◌≡◌, inl, inr, refl, ◌⊎◌, sym, subst, Bool, Bool-cases, true, false,
  ◌&&◌, not, List, [], ◌∷◌, Option-cases, some, ◌==◌, arith, All, All-append,
}
use system_design.Board.Connections.{
  Host, Accepted, try_again, failed, connected, Arrival, Output, welcome, accept_new, serve_entry,
  any_of, serve_round, serve_rounds,
}
use system_design.Board.Serving.{IsSound, Result, After}
use system_design.Board.Visits.{callers, serve_all, check_entries-serve_all, Disturbed}

-- The descriptors that `select` leaves.
abbrev pub read_set : Arrival → Host → ℕ → Bool
read_set a h j = h.master j && a.ready j

none_of :
    (read_fds : ℕ → Bool) (n : ℕ) → any_of read_fds n ≡ false → (j : ℕ) → j < n → read_fds j ≡ false
unfolding any_of
none_of read_fds zero e j lt = absurd (omega arith)
none_of read_fds (suc n) e j lt = elim (Bool-cases (j == n)) [
  | inl last ↦
      let same : n ≡ j = ground (arith, last) in
      let idle : read_fds n ≡ false = ground (arith, e) in subst (λ m. read_fds m ≡ false) same idle
  | inr other ↦ none_of read_fds n (ground (arith, e)) j (ground (arith, other))
]

pub no_callers_from :
    (listen : ℕ) (read_fds : ℕ → Bool) (n i : ℕ)
    → ((j : ℕ) → i ≤ j → j < i + n → read_fds j ≡ false)
    → callers listen read_fds n i ≡ []
no_callers_from listen read_fds zero i f = refl
no_callers_from listen read_fds (suc n) i f =
    let idle : (not (i == listen) && read_fds i) ≡ false =
      ground (arith, f i (omega arith) (omega arith)) in
    rw
      (
        idle,
        no_callers_from listen read_fds n (i + 1) (λ j low lt. f j (omega arith) (omega arith)),
      )
      refl

module _ (P : ℕ → Type 0) where
  -- What holds of each descriptor with input holds of all clients that are served.
  callers-All :
      (listen : ℕ) (read_fds : ℕ → Bool) (n i : ℕ)
      → ((j : ℕ) → read_fds j ≡ true → P j)
      → All P (callers listen read_fds n i)
  callers-All listen read_fds zero i f = tt
  callers-All listen read_fds (suc n) i f =
      let rest = callers-All listen read_fds n (i + 1) f in
      elim (Bool-cases (not (i == listen) && read_fds i)) [
        | inl busy ↦ rw busy (f i (ground (arith, busy)), rest)
        | inr idle ↦ rw idle rest
      ]

module _ (P : Host → Type 0) (Q : Output → Type 0) where
  -- `P` is kept, and `Q` holds of the outputs.
  abbrev pub Keeps : (Host → Result) → Type 0
  Keeps f = (h : Host) → P h → After (λ k out. P k × All Q out) (f h)

  serve_all-Keeps :
      (a : Arrival) (clients : List ℕ)
      → All (λ i. Keeps (serve_entry a i i)) clients
      → Keeps (serve_all a clients)
  serve_all-Keeps a [] f h p = (p, tt)
  serve_all-Keeps a (i ∷ later) f h p = elim (Option-cases (serve_entry a i i h)) [
    | inl fault ↦ rw fault tt
    | inr ((k, out), e) ↦
        let (now, here) = subst (After (λ k' out'. P k' × All Q out')) e (f.0 h p) in
        elim (Option-cases (serve_all a later k)) [
          | inl fault ↦ rw (e, fault) tt
          | inr ((k', out'), e') ↦
              let (after, behind) =
                subst (After (λ k' out'. P k' × All Q out')) e'
                  (serve_all-Keeps a later f.1 k now) in
              rw (e, e') (after, All-append Q out out' here behind)
        ]
  ]

module _ (listen maxfd : ℕ) (negative : (ℕ → Bool) → Bool) where
  -- In a round of a sound host in which no new connection waits, the loop over the table serves exactly
  -- the clients in use that have input, one request each, in ascending order; or else
  -- `FD_ISSET(-1, ...)` is true of the descriptors that `select` leaves, and the server ends.
  pub round_serves :
      (a : Arrival) (h : Host)
      → IsSound h
      → read_set a h listen ≡ false
      → Disturbed negative (read_set a h) (serve_round listen maxfd negative a h)
        ⊎ (serve_round listen maxfd negative a h
            ≡ serve_all a (callers listen (read_set a h) maxfd 0) h)
  unfolding serve_round
  round_serves a h v quiet = elim (Bool-cases (any_of (read_set a h) (maxfd + 1))) [
    | inl some_input ↦
        rw (some_input, quiet)
          (check_entries-serve_all listen maxfd negative a (read_set a h) maxfd 0 h
            (record { own = v.own; found = λ j lt e. v.in_use j (ground (arith, e)) }))
    | inr no_input ↦ inr (
        rw
          (
            no_input,
            no_callers_from listen (read_set a h) maxfd 0
                (λ j low lt. none_of (read_set a h) (maxfd + 1) no_input j (omega arith)),
          )
          refl)
  ]

  module _ (P : Host → Type 0) (Q : Output → Type 0) where
    accept_new-After :
        (others : ℕ → Bool) (h : Host) (x : Accepted)
        → P h
        → ((fd : ℕ)
            → x ≡ connected fd
            → After (λ k out. P k × All Q out) (some (welcome others fd h)))
        → After (λ k out. P k × All Q out) (accept_new others h x)
    unfolding accept_new
    accept_new-After others h try_again p new = (p, tt)
    accept_new-After others h failed p new = tt
    accept_new-After others h (connected fd) p new = new fd refl

    -- What every request of a client with input and every new connection keeps, a round keeps.
    pub round-Keeps :
        (a : Arrival) (h : Host)
        → IsSound h
        → P h
        → ((fd : ℕ)
            → a.accepted ≡ connected fd
            → After (λ k out. P k × All Q out) (some (welcome a.others fd h)))
        → ((j : ℕ) → read_set a h j ≡ true → Keeps P Q (serve_entry a j j))
        → After (λ k out. P k × All Q out) (serve_round listen maxfd negative a h)
    unfolding serve_round
    round-Keeps a h v p new request = elim (Bool-cases (read_set a h listen)) [
      | inl call ↦ elim (Bool-cases (any_of (read_set a h) (maxfd + 1))) [
        | inl some_input ↦ rw (some_input, call) (accept_new-After a.others h a.accepted p new)
        | inr no_input ↦ rw no_input (p, tt)
      ]
      | inr quiet ↦ elim (round_serves a h v quiet) [
        | inl (set, ends) ↦ subst (After (λ k out. P k × All Q out)) (sym ends) tt
        | inr served ↦ subst (After (λ k out. P k × All Q out)) (sym served) (
            serve_all-Keeps P Q a (callers listen (read_set a h) maxfd 0)
              (callers-All (λ j. Keeps P Q (serve_entry a j j)) listen (read_set a h) maxfd 0
                request)
              h p)
      ]
    ]

    pub rounds-Keeps :
        (arrivals : List Arrival)
        → All (λ a. Keeps P Q (serve_round listen maxfd negative a)) arrivals
        → Keeps P Q (serve_rounds listen maxfd negative arrivals)
    unfolding serve_rounds
    rounds-Keeps [] f h p = (p, tt)
    rounds-Keeps (a ∷ later) f h p = elim (Option-cases (serve_round listen maxfd negative a h)) [
      | inl fault ↦ rw fault tt
      | inr ((k, out), e) ↦
          let (now, here) = subst (After (λ k' out'. P k' × All Q out')) e (f.0 h p) in
          elim (Option-cases (serve_rounds listen maxfd negative later k)) [
            | inl fault ↦ rw (e, fault) tt
            | inr ((k', out'), e') ↦
                let (after, behind) =
                  subst (After (λ k' out'. P k' × All Q out')) e' (rounds-Keeps later f.1 k now) in
                rw (e, e') (after, All-append Q out out' here behind)
          ]
    ]
