-- ===== src/Board/Serving.antt =====
-- The server's rounds over its connections (csieBulletinBoard/server.c, `main`).
use system_design.Base.{
  ℕ, ◌≡◌, inl, inr, refl, Bool, Bool-cases, true, false, List, Option, Option-cases, none, some,
  ◌==◌, arith, All,
}
use system_design.Board.State.{Server}
use system_design.Board.Command.{Reply, silent, closed, sent, handle}
use system_design.Board.Sessions.{IsValid, handle-IsValid, Same-IsValid}
use system_design.Board.Listing.{greet-Lists}
use system_design.Board.Capacity.{Tidy, handle-Tidy, greet-Tidy}
use system_design.Board.Connections.{
  Host, Arrival, Output, sends, closes, receive_m, max_message_len, init_server, welcome, respond,
  serve_entry,
}

-- Each entry of the table in use holds its own index, the set `master` has exactly the descriptors in
-- use, the requests have left the board valid, and its texts fit their fields.
pub record IsSound (h : Host) : Type 0 where
  pub own : (i fd : ℕ) → h.conn_fd i ≡ some fd → fd ≡ i
  pub watched : (i : ℕ) → h.conn_fd i ≡ some i → h.master i ≡ true
  pub in_use : (i : ℕ) → h.master i ≡ true → h.conn_fd i ≡ some i
  pub valid : IsValid h.server
  pub tidy : Tidy h.server

pub init_server-IsSound :
    (listen : ℕ) (s : Server) → IsValid s → Tidy s → IsSound (init_server listen s)
unfolding init_server
init_server-IsSound listen s v t = record {
  own = λ i fd e. ground (arith, e);
  watched = λ i e. ground (arith, e);
  in_use = λ i e. ground (arith, e);
  valid = v;
  tidy = t;
}

pub welcome-IsSound :
    (others : ℕ → Bool) (fd : ℕ) (h : Host) → IsSound h → IsSound (welcome others fd h).0
unfolding welcome
welcome-IsSound others fd h v = record {
  own = λ i fd' e. elim (Bool-cases (fd == i)) [
    | inl new ↦ ground (arith, e, new)
    | inr old ↦ v.own i fd' (ground (arith, e, old))
  ];
  watched = λ i e. elim (Bool-cases (fd == i)) [
    | inl new ↦ ground (arith, new)
    | inr old ↦ rw old (v.watched i (ground (arith, e, old)))
  ];
  in_use = λ i e. elim (Bool-cases (fd == i)) [
    | inl new ↦ ground (arith, new)
    | inr old ↦ rw old (v.in_use i (ground (arith, e, old)))
  ];
  valid = Same-IsValid (let (_, _, same, _) = greet-Lists others h.server in same) v.valid;
  tidy = greet-Tidy others h.server v.tidy;
}

pub respond-IsSound :
    (i : ℕ) (s : Server) (r : Reply) (h : Host)
    → IsSound h
    → IsValid s
    → Tidy s
    → IsSound (respond i i s r h).0
unfolding respond
respond-IsSound i s silent h v w t = record {
  own = v.own;
  watched = v.watched;
  in_use = v.in_use;
  valid = w;
  tidy = t;
}
respond-IsSound i s (sent text) h v w t = record {
  own = v.own;
  watched = v.watched;
  in_use = v.in_use;
  valid = w;
  tidy = t;
}
respond-IsSound i s closed h v w t = record {
  own = λ j fd e. elim (Bool-cases (i == j)) [
    | inl new ↦ absurd (ground (arith, e, new))
    | inr old ↦ v.own j fd (ground (arith, e, old))
  ];
  watched = λ j e. elim (Bool-cases (i == j)) [
    | inl new ↦ absurd (ground (arith, e, new))
    | inr old ↦ rw old (v.watched j (ground (arith, e, old)))
  ];
  in_use = λ j e. elim (Bool-cases (i == j)) [
    | inl new ↦ absurd (ground (arith, e, new))
    | inr old ↦ rw old (v.in_use j (ground (arith, e, old)))
  ];
  valid = w;
  tidy = t;
}

abbrev pub Result : Type 0
Result = Option (Host × List Output)

abbrev pub After : (Host → List Output → Type 0) → Result → Type 0
After P none = Unit
After P (some (h, out)) = P h out

-- The descriptor to which an output goes.
abbrev pub receiver : Output → ℕ
receiver (sends fd text) = fd
receiver (closes fd) = fd

-- A request of client `i`: the entries of the others stay, none comes into use, and the outputs go to
-- this client.
pub record Served (i : ℕ) (h k : Host) (out : List Output) : Type 0 where
  pub sound : IsSound h → IsSound k
  pub stays : (j : ℕ) → (i == j) ≡ false → k.conn_fd j ≡ h.conn_fd j
  pub before : (j fd : ℕ) → k.conn_fd j ≡ some fd → h.conn_fd j ≡ some fd
  pub only : (j : ℕ) → k.master j ≡ true → h.master j ≡ true
  pub outputs : All (λ o. receiver o ≡ i) out

respond-Served :
    (i : ℕ) (s : Server) (r : Reply) (h : Host)
    → (IsSound h → IsValid s × Tidy s)
    → Served i h (respond i i s r h).0 (respond i i s r h).1
unfolding respond
respond-Served i s silent h w = record {
  sound = λ v. respond-IsSound i s silent h v (w v).0 (w v).1;
  stays = λ j f. refl;
  before = λ j fd e. e;
  only = λ j e. e;
  outputs = tt;
}
respond-Served i s (sent text) h w = record {
  sound = λ v. respond-IsSound i s (sent text) h v (w v).0 (w v).1;
  stays = λ j f. refl;
  before = λ j fd e. e;
  only = λ j e. e;
  outputs = (refl, tt);
}
respond-Served i s closed h w = record {
  sound = λ v. respond-IsSound i s closed h v (w v).0 (w v).1;
  stays = λ j f. rw f refl;
  before = λ j fd e. ground (arith, e);
  only = λ j e. ground (arith, e);
  outputs = (refl, tt);
}

pub serve_entry-Served : (a : Arrival) (i : ℕ) (h : Host) → After (Served i h) (serve_entry a i i h)
unfolding serve_entry
serve_entry-Served a i h = elim (Option-cases (receive_m max_message_len (a.message i))) [
  | inl fault ↦ rw fault tt
  | inr (command, e) ↦ elim (Option-cases (handle a.others i command h.server)) [
    | inl fault ↦ rw (e, fault) tt
    | inr ((s, reply), f) ↦
        rw (e, f)
          (respond-Served i s reply h (λ v. (
            handle-IsValid a.others i command h.server s reply v.valid f,
            handle-Tidy a.others i command h.server s reply v.valid.last v.tidy f,
          )))
  ]
]
