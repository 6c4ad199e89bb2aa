-- ===== src/Service/Killing.antt =====
-- The command "kill t" in messages (HierarchicalServiceManagementSystem/service.c) does what
-- `kill_children` says.
use mathlib.Core.List.{map-append}
use system_design.Base.{
  ℕ, ◌&&◌, not, Bool, ◌+◌, ◌<◌, ◌≤◌, ◌≡◌, refl, ap, ◌∙◌, Bool-cases, inl, inr, true, false, List,
  [], ◌∷◌, map, Option, some, if◌then◌else◌, ltb, Text, text_eq, length, arith, codes,
}
use system_design.Service.State.{Children, end, child, size}
use system_design.Service.Kill.{kill_all, Walk, settle, kill_children}
use system_design.Service.Removal.{kill_all-size}
use system_design.Service.Decimal.{int_limit, int_to_str, atoi, scan, atoi-int_to_str}
use system_design.Service.Words.{IsWord, line}
use system_design.Service.Protocol.{
  heard, kill_word, no_word, Loop, killing, ending, first_reply, Asked, Answered, settle_node,
  final_message, serve_message, serve_kill, count_reply, ask, Printed, hand_over,
}
use system_design.Service.Relay.{Carries, hand_over_number}
use system_design.Service.Ending.{final_message-Carries, ask-ends}
use system_design.Service.Spawning.{printed}

abbrev pub kill_words : Text → List Text
kill_words t = kill_word ∷ t ∷ no_word ∷ []

kill_children-num : (t : Text) (h : Children) → (kill_children t h).num ≤ size h
unfolding kill_children
kill_children-num t end = omega arith
kill_children-num t (child n h next) =
    ground (arith, kill_all-size h, kill_children-num t h, kill_children-num t next)

pub atoi_zero : atoi (codes "0") ≡ some 0
unfolding atoi scan
atoi_zero = refl

module _ (m t : Text) where
  abbrev pub kill_told : Text → Walk → Asked
  kill_told r w = record {
    head = w.head;
    log = map (printed (line (kill_word ∷ t ∷ []))) w.log;
    reply = r;
    num = w.num;
    hit = w.hit;
  }

  abbrev target_served : Text → Children → Answered
  target_served n h = record {
    head = h;
    log = heard n (line (kill_word ∷ t ∷ [])) ∷ [];
    reply = int_to_str (kill_all h + 1);
    ended = true;
  }

  abbrev other_served : Text → Walk → Answered
  other_served n w = record {
    head = settle t w;
    log = heard n (line (kill_word ∷ t ∷ [])) ∷ map (printed (line (kill_word ∷ t ∷ []))) w.log;
    reply = int_to_str w.num;
    ended = false;
  }

  serve_message-kills :
      (below : Loop → Text → Option Asked) (n r r' : Text) (h : Children)
      → Carries m (kill_words t)
      → below (killing t) m ≡ some (kill_told r (kill_children t h))
      → below ending (final_message kill_word t)
        ≡ some (record { head = h; log = []; reply = r'; num = 0 + kill_all h; hit = false })
      → serve_message below n m h
        ≡ some (if text_eq n t then target_served n h else other_served n (kill_children t h))
  unfolding serve_message serve_kill text_eq settle_node settle
  serve_message-kills below n r r' h carried passed ended =
      let none_yet : 0 + kill_all h ≡ kill_all h = omega arith in
      elim (Bool-cases (text_eq n t)) [
        | inl own ↦ rw (carried.1, own, ended, none_yet) refl
        | inr other ↦ rw (carried.1, other, passed) refl
      ]

  -- A round of the loop after which it stops.
  ask_stop :
      (n : Text) (h next h' : Children) (log : List Printed) (k : ℕ) (ended : Bool) (r : Text)
      → hand_over m ≡ some m
      → serve_message (λ l m'. ask l m' (first_reply l) 0 h) n m h
        ≡ some (record { head = h'; log = log; reply = int_to_str k; ended = ended })
      → (text_eq n t && not ended) ≡ false
      → ltb 0 k ≡ true
      → k < int_limit
      → ask (killing t) m r 0 (child n h next)
        ≡ some (record {
          head = child n h' next;
          log = log;
          reply = int_to_str k;
          num = k;
          hit = text_eq n t;
        })
  unfolding ask count_reply
  ask_stop n h next h' log k ended r whole served over positive small =
      let none_yet : 0 + k ≡ k = omega arith in
      rw (whole, served, hand_over_number k, atoi-int_to_str k small, none_yet, over, positive) refl

  pub ask-kills :
      (h : Children) (r : Text)
      → IsWord t
      → length t < 100
      → Carries m (kill_words t)
      → size h + 1 < int_limit
      → atoi r ≡ some 0
      → (r' : Text) × (ask (killing t) m r 0 h ≡ some (kill_told r' (kill_children t h)))
        × (atoi r' ≡ some (kill_children t h).num)
  unfolding ask count_reply kill_children
  ask-kills end r f short c lt e = (r, refl, e)
  ask-kills (child n h next) r f short c lt e =
      let w = kill_children t h in
      let (r1, passed, _) = ask-kills h (codes "0") f short c (omega arith) atoi_zero in
      let (r2, ended) =
        ask-ends t h (final_message kill_word t) (codes "0") 0 f short
          (final_message-Carries t f short) (omega arith) in
      let first =
        serve_message-kills (λ l m'. ask l m' (first_reply l) 0 h) n r1 r2 h c passed ended in
      elim (Bool-cases (text_eq n t)) [
        | inl found ↦
            let k = kill_all h + 1 in
            let small : k < int_limit = omega (arith, kill_all-size h) in
            let positive : ltb 0 k ≡ true = ground arith in
            (
              int_to_str k,
              ask_stop n h next h (target_served n h).log k true r c.0 (first ∙ rw found refl)
                    (ground (arith, found)) positive small
                  ∙ rw (found, positive) refl,
              rw (found, positive) (atoi-int_to_str k small),
            )
        | inr other ↦
            let small : w.num < int_limit = omega (arith, kill_children-num t h) in
            let number = atoi-int_to_str w.num small in
            elim (Bool-cases (ltb 0 w.num)) [
              | inl stop ↦ (
                int_to_str w.num,
                ask_stop n h next (settle t w) (other_served n w).log w.num false r c.0
                      (first ∙ rw other refl) (ground (arith, other)) stop small
                    ∙ rw (other, stop) refl,
                rw (other, stop) number,
              )
              | inr go_on ↦
                  let none_yet : 0 + w.num ≡ w.num = omega arith in
                  let zero : w.num ≡ 0 = ground (arith, go_on) in
                  let (r', rest, k) =
                    ask-kills next (int_to_str w.num) f short c (omega arith)
                      (number ∙ ap some zero) in
                  let rest' : ask (killing t) m (int_to_str w.num) w.num next
                      ≡ some (kill_told r' (kill_children t next)) =
                    ap (λ k. ask (killing t) m (int_to_str w.num) k next) zero ∙ rest in
                  (
                    r',
                    rw
                        (
                          c.0,
                          first,
                          other,
                          hand_over_number w.num,
                          number,
                          none_yet,
                          go_on,
                          rest',
                          map-append (printed (line (kill_word ∷ t ∷ []))) w.log
                              (kill_children t next).log,
                        )
                        refl,
                    rw (other, go_on) k,
                  )
            ]
      ]
