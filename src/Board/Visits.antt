-- ===== src/Board/Visits.antt =====
-- Which clients the server serves in a round, and in which order (csieBulletinBoard/server.c, `main`).
use system_design.Base.{
  ℕ, zero, suc, ◌+◌, ◌≤◌, ◌≡◌, inl, inr, refl, ap, subst, ◌∙◌, Bool, Bool-cases, true, false, ◌&&◌,
  not, List, [], ◌∷◌, ◌++◌, Option, Option-cases, none, some, ◌⊎◌, if◌then◌else◌, ◌==◌, ◌>>=◌,
  arith,
}
use system_design.Board.Connections.{
  Host, Arrival, Output, serve_entry, check_entry, check_fd, check_entries,
}
use system_design.Board.Serving.{Result, After, Served, serve_entry-Served}

-- The clients with input among the `n` descriptors from `i` on, in ascending order.
abbrev pub callers : ℕ → (ℕ → Bool) → ℕ → ℕ → List ℕ
callers listen read_fds zero i = []
callers listen read_fds (suc n) i =
    let rest = callers listen read_fds n (i + 1) in
    if not (i == listen) && read_fds i then i ∷ rest else rest

-- One request of each client, one after the other.
abbrev pub serve_all : Arrival → List ℕ → Host → Option (Host × List Output)
serve_all a [] h = some (h, [])
serve_all a (i ∷ later) h = do
  (h₁, out₁) ← serve_entry a i i h
  (h₂, out₂) ← serve_all a later h₁
  some (h₂, out₁ ++ out₂)

-- `FD_ISSET(-1, ...)` is true of these descriptors, and the server ends.
abbrev pub Disturbed : ((ℕ → Bool) → Bool) → (ℕ → Bool) → Result → Type 0
Disturbed negative read_fds r = (negative read_fds ≡ true) × (r ≡ none)

pure_rest : (r : Result) → (do (h, out) ← r; some (h, [] ++ out)) ≡ r
pure_rest none = refl
pure_rest (some r) = refl

module _ (listen maxfd : ℕ) (negative : (ℕ → Bool) → Bool) where
  -- The entries from `i` on, as `select` found them.
  pub record Fixed (read_fds : ℕ → Bool) (i : ℕ) (h : Host) : Type 0 where
    pub own : (j fd : ℕ) → h.conn_fd j ≡ some fd → fd ≡ j
    pub found : (j : ℕ) → i ≤ j → read_fds j ≡ true → h.conn_fd j ≡ some j

  Fixed-next :
      (read_fds : ℕ → Bool) (i : ℕ) (h k : Host) (out : List Output)
      → Fixed read_fds i h
      → Served i h k out
      → Fixed read_fds (i + 1) k
  Fixed-next read_fds i h k out f s = record {
    own = λ j fd e. f.own j fd (s.before j fd e);
    found = λ j lt e. s.stays j (ground arith) ∙ f.found j (omega arith) e;
  }

  Fixed-skip :
      (read_fds : ℕ → Bool) (i : ℕ) (h : Host) → Fixed read_fds i h → Fixed read_fds (i + 1) h
  Fixed-skip read_fds i h f = record { own = f.own; found = λ j lt e. f.found j (omega arith) e }

  -- An entry whose client has no input is passed over.
  check_entry_idle :
      (a : Arrival) (read_fds : ℕ → Bool) (i : ℕ) (h : Host)
      → Fixed read_fds i h
      → (not (i == listen) && read_fds i) ≡ false
      → Disturbed negative read_fds (check_entry listen maxfd negative a read_fds i h)
        ⊎ (check_entry listen maxfd negative a read_fds i h ≡ some (h, []))
  unfolding check_fd
  check_entry_idle a read_fds i h f idle = elim (Option-cases (h.conn_fd i)) [
    | inl free ↦ elim (Bool-cases (negative read_fds)) [
      | inl set ↦ inl (set, rw (free, set) refl)
      | inr unset ↦ inr (rw (free, unset) refl)
    ]
    | inr (fd, e) ↦
        let same : fd ≡ i = f.own i fd e in
        let idle' : (not (fd == listen) && read_fds fd) ≡ false =
          ap (λ j. not (j == listen) && read_fds j) same ∙ idle in
        inr (rw (e, idle') refl)
  ]

  check_entry_busy :
      (a : Arrival) (read_fds : ℕ → Bool) (i : ℕ) (h : Host)
      → Fixed read_fds i h
      → (not (i == listen) && read_fds i) ≡ true
      → check_entry listen maxfd negative a read_fds i h ≡ serve_entry a i i h
  unfolding check_fd
  check_entry_busy a read_fds i h f busy =
      rw (f.found i (omega arith) (ground (arith, busy)), busy) refl

  pub check_entries-serve_all :
      (a : Arrival) (read_fds : ℕ → Bool) (n i : ℕ) (h : Host)
      → Fixed read_fds i h
      → Disturbed negative read_fds (check_entries listen maxfd negative a read_fds n i h)
        ⊎ (check_entries listen maxfd negative a read_fds n i h
            ≡ serve_all a (callers listen read_fds n i) h)
  unfolding check_entries
  check_entries-serve_all a read_fds zero i h f = inr refl
  check_entries-serve_all a read_fds (suc n) i h f =
      elim (Bool-cases (not (i == listen) && read_fds i)) [
        | inl busy ↦ elim (Option-cases (serve_entry a i i h)) [
          | inl fault ↦ inr (rw (check_entry_busy a read_fds i h f busy, busy, fault) refl)
          | inr ((k, out), e) ↦
              let served : Served i h k out =
                subst (After (Served i h)) e (serve_entry-Served a i h) in
              let next = Fixed-next read_fds i h k out f served in
              let here = check_entry_busy a read_fds i h f busy in
              elim (check_entries-serve_all a read_fds n (i + 1) k next) [
                | inl (set, ends) ↦ inl (set, rw (here, e, ends) refl)
                | inr rest ↦ inr (rw (here, busy, e, rest) refl)
              ]
        ]
        | inr idle ↦ elim (check_entry_idle a read_fds i h f idle) [
          | inl (set, ends) ↦ inl (set, rw ends refl)
          | inr here ↦
              elim (check_entries-serve_all a read_fds n (i + 1) h (Fixed-skip read_fds i h f)) [
                | inl (set, ends) ↦ inl (set, rw (here, ends) refl)
                | inr rest ↦ inr (rw (here, idle, rest) (pure_rest _))
              ]
        ]
      ]
