-- ===== src/Board/Message.antt =====
-- The message in which a client submits its post, from csieBulletinBoard/client.c to the server.
use mathlib.Core.List.{append_assoc, append-nil}
use system_design.Base.{
  ℕ, ◌≡◌, ◌≢◌, refl, ap, ◌∙◌, true, false, ◌==◌, arith, [], ◌∷◌, ◌++◌, All, All-append,
}
use system_design.Board.State.{Text, codes, Server}
use system_design.Board.Submit.{end_word, split_plus, assign_tokens, store_post}
use system_design.Board.Command.{has_marker, remove_marker, submit}

-- `strcpy(temp, "[SP]"); strcat(temp, str1); strcat(temp, "+"); strcat(temp, str2)` of the client.
unfoldable pub submission : Text → Text → Text
submission from content = codes "[SP]" ++ from ++ b'+' ∷ content

abbrev pub Lacks : ℕ → Text → Type 0
Lacks b = All (λ c. c ≢ b)

remove_marker-Lacks : (t : Text) → Lacks b'[' t → remove_marker t ≡ t
unfolding remove_marker
remove_marker-Lacks [] h = refl
remove_marker-Lacks (a ∷ []) h = refl
remove_marker-Lacks (a ∷ b ∷ []) h = refl
remove_marker-Lacks (a ∷ b ∷ c ∷ []) h = refl
remove_marker-Lacks (a ∷ b ∷ c ∷ d ∷ []) h = ground (arith, h.0)
remove_marker-Lacks (a ∷ b ∷ c ∷ d ∷ e ∷ t) h =
    let rest = remove_marker-Lacks (b ∷ c ∷ d ∷ e ∷ t) h.1 in ground (arith, h.0, rest)

split_plus-word :
    (word t rest : Text)
    → Lacks b'+' t
    → split_plus word (t ++ b'+' ∷ rest) ≡ end_word (word ++ t) (split_plus [] rest)
unfolding split_plus
split_plus-word word [] rest h = rw append-nil
split_plus-word word (c ∷ t) rest h =
    let next : (word ++ c ∷ []) ++ t ≡ word ++ c ∷ t = append_assoc word (c ∷ []) t in
    let other : (c == b'+') ≡ false = ground (arith, h.0) in
    rw other
      (split_plus-word (word ++ c ∷ []) t rest h.1 ∙ ap (λ w. end_word w (split_plus [] rest)) next)

split_plus-last : (word t : Text) → Lacks b'+' t → split_plus word t ≡ end_word (word ++ t) []
unfolding split_plus
split_plus-last word [] h = rw append-nil
split_plus-last word (c ∷ t) h =
    let next : (word ++ c ∷ []) ++ t ≡ word ++ c ∷ t = append_assoc word (c ∷ []) t in
    let other : (c == b'+') ≡ false = ground (arith, h.0) in
    rw other (split_plus-last (word ++ c ∷ []) t h.1 ∙ ap (λ w. end_word w []) next)

-- If the two texts that a client submits are not empty and hold no '+' and no '[', the server takes
-- the message for a submission and reads back the two texts.
pub submit-submission :
    (conn f : ℕ) (from : Text) (c : ℕ) (content : Text) (s : Server)
    → Lacks b'+' (f ∷ from)
    → Lacks b'+' (c ∷ content)
    → Lacks b'[' (f ∷ from)
    → Lacks b'[' (c ∷ content)
    → (has_marker (submission (f ∷ from) (c ∷ content)) ≡ true)
      × (submit conn (submission (f ∷ from) (c ∷ content)) s
          ≡ store_post conn (record s { str1 = f ∷ from; str2 = c ∷ content }))
unfolding submit submission has_marker remove_marker assign_tokens
submit-submission conn f from c content s hf hc bf bc =
    let rest = All-append (λ c. c ≢ b'[') from (b'+' ∷ c ∷ content) bf.1 ((λ e. omega arith), bc) in
    let tokens =
      split_plus-word [] (f ∷ from) (c ∷ content) hf
      ∙ ap (λ l. (f ∷ from) ∷ l) (split_plus-last [] (c ∷ content) hc) in
    (refl, rw (remove_marker-Lacks (from ++ b'+' ∷ c ∷ content) rest, tokens))
