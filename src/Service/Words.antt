-- ===== src/Service/Words.antt =====
-- The words of a message (HierarchicalServiceManagementSystem/service.c): the loop over
-- `strtok_r(rest, " ", &rest)`, and `concat`, which puts a message together.
use mathlib.Core.List.{append_assoc, append-nil}
use system_design.Base.{
  ℕ, zero, suc, ◌+◌, ◌%◌, ◌/◌, ◌≡◌, refl, sym, ap, ◌∙◌, Bool, Bool-cases, inl, inr, ◌&&◌, not, true,
  false, List, [], ◌∷◌, ◌++◌, Option, none, some, if◌then◌else◌, ◌==◌, ltb, leb, Text, length, All,
  arith, ◌<◌, ◌≤◌,
}
use system_design.Service.Decimal.{digits, int_to_str}

abbrev pub concat : Text → Text → Text
concat s t = s ++ t

abbrev pub space : Text
space = b' ' ∷ []

-- `strtok_r` gives no empty words.
unfoldable pub flush : Text → List Text → List Text
flush [] ws = ws
flush (c ∷ w) ws = (c ∷ w) ∷ ws

-- The words of what is unread, the first of which has begun with `w`.
unfoldable pub cut : Text → Text → List Text
cut w [] = flush w []
cut w (c ∷ s) =
    let next = cut [] s in
    let longer = cut (w ++ c ∷ []) s in if c == b' ' then flush w next else longer

unfoldable pub words : Text → List Text
words s = cut [] s

-- The array of words has four places; beyond them the source writes outside it, and with no word at
-- all the manager reads in front of it: `none`.
unfoldable pub arguments : Text → Option (List Text)
arguments s = let ws = words s in if leb 1 (length ws) && leb (length ws) 4 then some ws else none

-- Texts without NUL and blank, and words, which are not empty.
abbrev pub letters : Text → Bool
letters [] = true
letters (c ∷ w) = ltb 0 c && (not (c == b' ') && letters w)

abbrev pub is_word : Text → Bool
is_word [] = false
is_word (c ∷ w) = letters (c ∷ w)

abbrev pub IsWord : Text → Type 0
IsWord w = is_word w ≡ true

cut-append : (v w s : Text) → letters w ≡ true → cut v (w ++ s) ≡ cut (v ++ w) s
unfolding cut
cut-append v [] s h = rw append-nil
cut-append v (c ∷ w) s h =
    let other : (c == b' ') ≡ false = ground (arith, h) in
    let rest : letters w ≡ true = ground (arith, h) in
    rw other (cut-append (v ++ c ∷ []) w s rest ∙ rw append_assoc)

-- A word in front of a blank, and at the end of the message.
pub words-before : (w s : Text) → IsWord w → words (w ++ b' ' ∷ s) ≡ w ∷ words s
unfolding words flush cut
words-before [] s h = absurd cc
words-before (c ∷ w) s h = cut-append [] (c ∷ w) (b' ' ∷ s) h

pub words-last : (w : Text) → IsWord w → words w ≡ w ∷ []
unfolding words flush cut
words-last [] h = absurd cc
words-last (c ∷ w) h = ap (cut []) (sym (append-nil (c ∷ w))) ∙ cut-append [] (c ∷ w) [] h

pub words-space : (s : Text) → words (b' ' ∷ s) ≡ words s
unfolding words flush cut
words-space s = refl

-- The messages: the command and its words with a blank between each two.
abbrev pub line : List Text → Text
line [] = []
line (w ∷ []) = w
line (w ∷ v ∷ ws) = w ++ b' ' ∷ line (v ∷ ws)

-- Words that are put together with a blank between each two come apart as they were.
pub words-line : (ws : List Text) → All IsWord ws → words (line ws) ≡ ws
unfolding words cut flush
words-line [] h = refl
words-line (w ∷ []) h = words-last w h.0
words-line (w ∷ v ∷ ws) h =
    words-before w (line (v ∷ ws)) h.0 ∙ ap (λ l. w ∷ l) (words-line (v ∷ ws) h.1)

digits-letters : (k n : ℕ) (out : Text) → letters out ≡ true → letters (digits k n out) ≡ true
unfolding digits
digits-letters zero n out h = h
digits-letters (suc k) n out h =
    let here : letters ((b'0' + n % 10) ∷ out) ≡ true = ground (arith, h) in
    elim (Bool-cases (n / 10 == 0)) [
      | inl last ↦ rw last here
      | inr more ↦ rw more (digits-letters k (n / 10) ((b'0' + n % 10) ∷ out) here)
    ]

length-digits : (k n : ℕ) (out : Text) → length (digits k n out) ≤ k + length out
unfolding digits
length-digits zero n out = omega arith
length-digits (suc k) n out = ground (arith, length-digits k (n / 10) ((b'0' + n % 10) ∷ out))

length-digits-below : (k n : ℕ) (out : Text) → length out ≤ length (digits k n out)
unfolding digits
length-digits-below zero n out = omega arith
length-digits-below (suc k) n out =
    ground (arith, length-digits-below k (n / 10) ((b'0' + n % 10) ∷ out))

digits_grow : (k n : ℕ) (out : Text) → 0 < length (digits (suc k) n out)
unfolding digits
digits_grow k n out = ground (arith, length-digits-below k (n / 10) ((b'0' + n % 10) ∷ out))

letters-IsWord : (w : Text) → 0 < length w → letters w ≡ true → IsWord w
letters-IsWord [] h l = absurd (omega arith)
letters-IsWord (c ∷ w) h l = l

pub int_to_str-IsWord : (n : ℕ) → IsWord (int_to_str n)
unfolding int_to_str
int_to_str-IsWord n = letters-IsWord _ (digits_grow 9 n []) (digits-letters 10 n [] refl)

pub length-int_to_str : (n : ℕ) → length (int_to_str n) ≤ 10
unfolding int_to_str
length-int_to_str n = omega (arith, length-digits 10 n [])
