-- ===== src/Service/Ending.antt =====
-- The command "kill" with the mark "Y" (HierarchicalServiceManagementSystem/service.c): its messages end
-- every process of a list and bring back their number.
use system_design.Base.{
  ℕ, ◌+◌, ◌<◌, ◌≡◌, refl, ap, Bool-cases, inl, inr, true, false, List, [], ◌∷◌, Option, some, Text,
  text_eq, length, length-append, arith, codes,
}
use system_design.Service.State.{Children, end, child, size}
use system_design.Service.Kill.{kill_all}
use system_design.Service.Removal.{kill_all-size}
use system_design.Service.Decimal.{int_limit, int_to_str, atoi, atoi-int_to_str}
use system_design.Service.Words.{IsWord, arguments}
use system_design.Service.Protocol.{
  kill_word, yes_word, Loop, ending, first_reply, Asked, final_message, serve_message, serve_kill,
  count_reply, ask,
}
use system_design.Service.Relay.{Carries, line-Carries, hand_over_number}

-- The words of the final message; it may come with more blanks than one.
abbrev pub final_words : Text → List Text
final_words t = kill_word ∷ t ∷ yes_word ∷ []

pub final_message-Carries :
    (t : Text) → IsWord t → length t < 100 → Carries (final_message kill_word t) (final_words t)
final_message-Carries t f lt =
    line-Carries (final_words t) (refl, (f, (refl, tt))) (omega arith) (omega arith)
      (omega (arith, length-append t (b' ' ∷ yes_word)))

serve_message-ends :
    (below : Loop → Text → Option Asked) (n m t : Text) (h : Children) (k : ℕ) (r r' : Text)
    → arguments m ≡ some (final_words t)
    → below ending m ≡ some (record { head = h; log = []; reply = r; num = 0 + k; hit = false })
    → below ending (final_message kill_word t)
      ≡ some (record { head = h; log = []; reply = r'; num = 0 + k; hit = false })
    → serve_message below n m h
      ≡ some (record { head = h; log = []; reply = int_to_str (k + 1); ended = true })
unfolding serve_message serve_kill text_eq
serve_message-ends below n m t h k r r' e passed renewed =
    let none_yet : 0 + k ≡ k = omega arith in
    elim (Bool-cases (text_eq n t)) [
      | inl own ↦ rw (e, own, renewed, none_yet) refl
      | inr other ↦ rw (e, other, passed, none_yet) refl
    ]

-- The loop ends all processes of the list, prints nothing, and adds their number to `num`.
pub ask-ends :
    (t : Text) (h : Children) (m r : Text) (num : ℕ)
    → IsWord t
    → length t < 100
    → Carries m (final_words t)
    → size h + 1 < int_limit
    → (r' : Text) × (ask ending m r num h
        ≡ some (record { head = h; log = []; reply = r'; num = num + kill_all h; hit = false }))
unfolding ask count_reply kill_all
ask-ends t end m r num f short c lt = (
  r,
  ap (λ k. some (record { head = end; log = []; reply = r; num = k; hit = false })) (omega arith),
)
ask-ends t (child n h next) m r num f short c lt =
    let k = kill_all h in
    let (r1, passed) = ask-ends t h m (codes "0") 0 f short c (omega arith) in
    let (r2, renewed) =
      ask-ends t h (final_message kill_word t) (codes "0") 0 f short
        (final_message-Carries t f short) (omega arith) in
    let number : atoi (int_to_str (k + 1)) ≡ some (k + 1) =
      atoi-int_to_str (k + 1) (omega (arith, kill_all-size h)) in
    let (r', rest) =
      ask-ends t next m (int_to_str (k + 1)) (num + (k + 1)) f short c (omega arith) in
    (
      r',
      rw
          (
            c.0,
            serve_message-ends (λ l m'. ask l m' (first_reply l) 0 h) n m t h k r1 r2 c.1 passed
                renewed,
            hand_over_number (k + 1),
            number,
            rest,
          )
          (ap
            (λ k.
              some (record { head = child n h next; log = []; reply = r'; num = k; hit = false }))
            (omega arith)),
    )
