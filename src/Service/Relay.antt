-- ===== src/Service/Relay.antt =====
-- Messages of words between processes (HierarchicalServiceManagementSystem/service.c): what is sent is
-- what is read, and the mark "Y" of the command "kill" ends a whole list.
use system_design.Base.{
  ℕ, ◌<◌, ◌≤◌, ◌≡◌, ◌≢◌, refl, true, List, [], ◌∷◌, some, Text, All, All-append, length, arith, leb,
}
use system_design.Service.Pipes.{buffer_len, write_message-append, read_message, read_bytes-message}
use system_design.Service.Decimal.{int_to_str}
use system_design.Service.Words.{
  arguments, letters, IsWord, line, words-line, int_to_str-IsWord, length-int_to_str, words,
}
use system_design.Service.Protocol.{hand_over}

abbrev pub NoNul : Text → Type 0
NoNul = All (λ c. c ≢ 0)

letters-NoNul : (w : Text) → letters w ≡ true → NoNul w
letters-NoNul [] h = tt
letters-NoNul (c ∷ w) h = (λ e. ground (arith, h, e), letters-NoNul w (ground (arith, h)))

pub IsWord-NoNul : (w : Text) → IsWord w → NoNul w
IsWord-NoNul [] h = tt
IsWord-NoNul (c ∷ w) h = letters-NoNul (c ∷ w) h

line-NoNul : (ws : List Text) → All IsWord ws → NoNul (line ws)
line-NoNul [] h = tt
line-NoNul (w ∷ []) h = IsWord-NoNul w h.0
line-NoNul (w ∷ v ∷ ws) h =
    All-append (λ c. c ≢ 0) w _ (IsWord-NoNul w h.0)
      ((λ e. omega (arith, e)), line-NoNul (v ∷ ws) h.1)

pub hand_over-NoNul : (m : Text) → NoNul m → length m < buffer_len → hand_over m ≡ some m
unfolding hand_over read_message
hand_over-NoNul m f lt =
    rw (write_message-append m [], read_bytes-message buffer_len m [] f lt) refl

pub hand_over_word : (w : Text) → IsWord w → length w < buffer_len → hand_over w ≡ some w
hand_over_word w f lt = hand_over-NoNul w (IsWord-NoNul w f) lt

pub hand_over_number : (n : ℕ) → hand_over (int_to_str n) ≡ some (int_to_str n)
hand_over_number n =
    hand_over_word (int_to_str n) (int_to_str-IsWord n) (omega (arith, length-int_to_str n))

-- A message that arrives as it was sent and has the words `ws`.
abbrev pub Carries : Text → List Text → Type 0
Carries m ws = (hand_over m ≡ some m) × (arguments m ≡ some ws)

pub arguments-words :
    (m : Text) (ws : List Text)
    → words m ≡ ws
    → 1 ≤ length ws
    → length ws ≤ 4
    → arguments m ≡ some ws
unfolding arguments
arguments-words m ws e lo hi =
    let a : leb 1 (length ws) ≡ true = ground arith in
    let b : leb (length ws) 4 ≡ true = ground arith in rw (e, a, b) refl

-- Up to four words that are put together with blanks, the whole of fewer than 128 bytes, come out of a
-- pipe as they were sent, and the receiver takes them apart into the same words.
pub line-Carries :
    (ws : List Text)
    → All IsWord ws
    → 1 ≤ length ws
    → length ws ≤ 4
    → length (line ws) < buffer_len
    → Carries (line ws) ws
line-Carries ws f lo hi lt = (
  hand_over-NoNul (line ws) (line-NoNul ws f) lt,
  arguments-words (line ws) ws (words-line ws f) lo hi,
)
