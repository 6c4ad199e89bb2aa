-- ===== src/Board/Exits.antt =====
-- The clients of a board over many rounds (csieBulletinBoard/server.c, `main`).
use system_design.Base.{
  ℕ, ◌<◌, text_eq, ◌≡◌, ◌≢◌, ◌⊎◌, inl, inr, refl, sym, ap, subst, ◌∙◌, Bool, Bool-cases, true,
  false, ◌==◌, List, ◌∷◌, Option-cases, none, some, arith, All, All-map, All-everywhere,
}
use system_design.Board.State.{codes, Server}
use system_design.Board.Connections.{
  Host, connected, Arrival, Output, closes, respond, welcome, serve_entry, serve_round,
  serve_rounds, init_server,
}
use system_design.Board.Sessions.{IsValid}
use system_design.Board.Capacity.{Tidy}
use system_design.Board.Serving.{
  IsSound, respond-IsSound, init_server-IsSound, welcome-IsSound, Result, After, receiver, Served,
  serve_entry-Served,
}
use system_design.Board.Alone.{alone_round}
use system_design.Board.Command.{closed, handle, has_marker}
use system_design.Board.Visits.{Disturbed}
use system_design.Board.Rounds.{read_set, Keeps, round-Keeps, rounds-Keeps}

-- One request of a client, for any predicates that hold after a request of it.
serve_entry-Keeps :
    (P : Host → Type 0) (Q : Output → Type 0) (a : Arrival) (j : ℕ)
    → ((h k : Host) (out : List Output) → P h → Served j h k out → P k)
    → ((o : Output) → receiver o ≡ j → Q o)
    → Keeps P Q (serve_entry a j j)
serve_entry-Keeps P Q a j f g h p = elim (Option-cases (serve_entry a j j h)) [
  | inl fault ↦ rw fault tt
  | inr ((k, out), e) ↦
      let served : Served j h k out = subst (After (Served j h)) e (serve_entry-Served a j h) in
      rw e (f h k out p served, All-map (λ o. receiver o ≡ j) Q out g served.outputs)
]

After-map :
    (P Q : Host → List Output → Type 0) (r : Result)
    → ((k : Host) (out : List Output) → P k out → Q k out)
    → After P r
    → After Q r
After-map P Q none f p = tt
After-map P Q (some (k, out)) f p = f k out p

module _ (listen maxfd : ℕ) (negative : (ℕ → Bool) → Bool) where
  round-IsSound :
      (a : Arrival) (h : Host)
      → IsSound h
      → After
          (λ k out.
            IsSound k
            × All (λ o. (h.master (receiver o) ≡ true) ⊎ (a.accepted ≡ connected (receiver o))) out)
          (serve_round listen maxfd negative a h)
  round-IsSound a h v =
      let Q =
        λ (o : Output). (h.master (receiver o) ≡ true) ⊎ (a.accepted ≡ connected (receiver o)) in
      round-Keeps listen maxfd negative IsSound Q a h v v
        (λ fd new. unfold welcome in (welcome-IsSound a.others fd h v, (inr new, tt)))
        (λ j busy.
          serve_entry-Keeps IsSound Q a j (λ h' k out w s. s.sound w)
            (λ o e. inl (subst (λ i. h.master i ≡ true) (sym e) (ground (arith, busy)))))

  -- Connection `fd` is closed.
  abbrev Closed : ℕ → Host → Type 0
  Closed fd h = IsSound h × (h.master fd ≡ false)

  round-Closed :
      (fd : ℕ) (a : Arrival)
      → a.accepted ≢ connected fd
      → Keeps (Closed fd) (λ o. receiver o ≢ fd) (serve_round listen maxfd negative a)
  round-Closed fd a never h (v, shut) =
      round-Keeps listen maxfd negative (Closed fd) (λ o. receiver o ≢ fd) a h v (v, shut)
        (λ new accepted.
          let other : new ≢ fd = λ e. never (accepted ∙ ap connected e) in
          unfold welcome in
          ((welcome-IsSound a.others new h v, ground (arith, other, shut)), (other, tt)))
        (λ j busy.
          let other : j ≢ fd = λ e. absurd (ground (arith, busy, shut, e)) in
          serve_entry-Keeps (Closed fd) (λ o. receiver o ≢ fd) a j
            (λ h' k out w s. (
              s.sound w.0,
              elim (Bool-cases (k.master fd)) [
                | inl still ↦ absurd (ground (arith, s.only fd still, w.1))
                | inr gone ↦ gone
              ],
            ))
            (λ o e q. other (sym e ∙ q)))

  round_stays : (a : Arrival) → Keeps IsSound (λ _. Unit) (serve_round listen maxfd negative a)
  round_stays a h v =
      let addressed =
        λ (o : Output). (h.master (receiver o) ≡ true) ⊎ (a.accepted ≡ connected (receiver o)) in
      After-map (λ k out. IsSound k × All addressed out) (λ k out. IsSound k × All (λ _. Unit) out)
        _ (λ k out p. (p.0, All-everywhere (λ _. Unit) out (λ o. tt))) (round-IsSound a h v)

  -- From the start of the server on a valid board whose texts fit the fields of their records, after any
  -- rounds that the server comes through, each entry of the table in use holds its own index, the
  -- server listens to exactly the descriptors in use, and the board is again valid with texts that fit.
  pub rounds-IsSound :
      (arrivals : List Arrival) (s : Server)
      → IsValid s
      → Tidy s
      → After
          (λ k out. IsSound k)
          (serve_rounds listen maxfd negative arrivals (init_server listen s))
  rounds-IsSound arrivals s v t =
      After-map (λ k out. IsSound k × All (λ _. Unit) out) (λ k out. IsSound k) _ (λ k out p. p.0)
        (rounds-Keeps listen maxfd negative IsSound (λ _. Unit) arrivals
          (All-everywhere _ arrivals round_stays) (init_server listen s)
          (init_server-IsSound listen s v t))

  pub closed_gets_nothing :
      (fd : ℕ) (arrivals : List Arrival) (h : Host)
      → All (λ a. a.accepted ≢ connected fd) arrivals
      → IsSound h
      → h.master fd ≡ false
      → After
          (λ k out. (k.master fd ≡ false) × All (λ o. receiver o ≢ fd) out)
          (serve_rounds listen maxfd negative arrivals h)
  closed_gets_nothing fd arrivals h never v shut =
      After-map (λ k out. Closed fd k × All (λ o. receiver o ≢ fd) out)
        (λ k out. (k.master fd ≡ false) × All (λ o. receiver o ≢ fd) out) _
        (λ k out p. (p.0.1, p.1))
        (rounds-Keeps listen maxfd negative (Closed fd) (λ o. receiver o ≢ fd) arrivals
          (All-map (λ a. a.accepted ≢ connected fd)
            (λ a. Keeps (Closed fd) (λ o. receiver o ≢ fd) (serve_round listen maxfd negative a))
            arrivals (λ a n. round-Closed fd a n) never)
          h (v, shut))

  exit_round :
      (fd : ℕ) (a : Arrival) (h : Host)
      → IsSound h
      → (fd == listen) ≡ false
      → fd < maxfd
      → h.master fd ≡ true
      → ((j : ℕ) → a.ready j ≡ (fd == j))
      → a.message fd ≡ codes "exit"
      → Disturbed negative (read_set a h) (serve_round listen maxfd negative a h)
        ⊎ (serve_round listen maxfd negative a h ≡ some (respond fd fd h.server closed h))
  unfolding handle has_marker text_eq
  exit_round fd a h v other lt in_use alone message =
      alone_round listen maxfd negative fd a h v other lt in_use alone (codes "exit") message
        (omega arith, omega arith)

  -- Client `fd`, which is in use and not the listening socket, alone has input, and sends "exit": the
  -- server closes its connection first. As long as no new connection gets its number, nothing more goes
  -- to it and it stays closed, whatever else arrives, if the server comes through the rounds. The host
  -- is sound.
  pub exit_then_nothing :
      (fd : ℕ) (a : Arrival) (later : List Arrival) (h : Host)
      → IsSound h
      → (fd == listen) ≡ false
      → fd < maxfd
      → h.master fd ≡ true
      → ((j : ℕ) → a.ready j ≡ (fd == j))
      → a.message fd ≡ codes "exit"
      → All (λ r. r.accepted ≢ connected fd) later
      → After
          (λ k out.
            (k.master fd ≡ false)
            × (rest : List Output) × (out ≡ closes fd ∷ rest)
            × All (λ o. receiver o ≢ fd) rest)
          (serve_rounds listen maxfd negative (a ∷ later) h)
  unfolding serve_rounds
  exit_then_nothing fd a later h v other lt in_use alone message never =
      let k = (respond fd fd h.server closed h).0 in
      let w : IsSound k = respond-IsSound fd h.server closed h v v.valid v.tidy in
      let shut : k.master fd ≡ false = unfold respond in ground arith in
      let rest = closed_gets_nothing fd later k never w shut in
      elim (exit_round fd a h v other lt in_use alone message) [
        | inl (set, ends) ↦ rw ends tt
        | inr first ↦ elim (Option-cases (serve_rounds listen maxfd negative later k)) [
          | inl fault ↦ rw (first, fault) tt
          | inr ((k', out), e) ↦
              let (gone, unsent) =
                subst (After (λ k out. (k.master fd ≡ false) × All (λ o. receiver o ≢ fd) out)) e
                  rest in
              rw (first, e) (gone, out, unfold respond in refl, unsent)
        ]
      ]
