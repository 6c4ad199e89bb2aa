-- ===== src/Service/Pipes.antt =====
-- Messages between a process and its parent, byte by byte
-- (HierarchicalServiceManagementSystem/service.c). A pipe is the bytes that wait in it; reading from
-- an empty one waits, as long as the other end is open: `none`.
use mathlib.Core.List.{append_assoc}
use system_design.Base.{
  ℕ, zero, suc, ◌<◌, ◌≡◌, ◌≢◌, refl, sym, ap, ◌∙◌, false, Option, none, some, [], ◌∷◌, ◌++◌,
  if◌then◌else◌, ◌==◌, ◌>>=◌, Text, All, length, arith,
}

-- The size of the buffers of `readFromParent` and `readFomChild`.
abbrev pub buffer_len : ℕ
buffer_len = 128

-- `writeToParent` and `writeToChild`: `strlen(msg) + 1` bytes, the closing NUL with them.
unfoldable pub write_message : Text → Text → Text
write_message [] pipe = pipe ++ 0 ∷ []
write_message (c ∷ msg) pipe = write_message msg (pipe ++ c ∷ [])

-- The loop of `readFromParent` and `readFomChild` with room for `n` more bytes, the NUL with them;
-- beyond it the source writes outside the buffer: `none`.
unfoldable pub read_bytes : ℕ → Text → Option (Text × Text)
read_bytes zero pipe = none
read_bytes (suc n) [] = none
read_bytes (suc n) (c ∷ pipe) =
    let more = read_bytes n pipe in
    if c == 0 then some ([], pipe) else (do (msg, rest) ← more; some (c ∷ msg, rest))

unfoldable pub read_message : Text → Option (Text × Text)
read_message pipe = read_bytes buffer_len pipe

pub write_message-append : (msg pipe : Text) → write_message msg pipe ≡ pipe ++ (msg ++ 0 ∷ [])
unfolding write_message
write_message-append [] pipe = refl
write_message-append (c ∷ msg) pipe =
    write_message-append msg (pipe ++ c ∷ []) ∙ append_assoc pipe (c ∷ []) (msg ++ 0 ∷ [])

pub read_bytes-message :
    (n : ℕ) (msg rest : Text)
    → All (λ c. c ≢ 0) msg
    → length msg < n
    → read_bytes n (msg ++ (0 ∷ rest)) ≡ some (msg, rest)
unfolding read_bytes
read_bytes-message zero msg rest h lt = absurd (omega arith)
read_bytes-message (suc n) [] rest h lt = refl
read_bytes-message (suc n) (c ∷ msg) rest h lt =
    let byte : (c == 0) ≡ false = ground (arith, h.0) in
    rw (byte, read_bytes-message n msg rest h.1 (omega arith)) refl

-- A message without NUL that fits the buffer is read from a pipe as it was written, and the messages
-- come in the order in which they were written: the second stays in the pipe, as if it alone had been
-- written.
pub read_message-write_message :
    (first second : Text)
    → All (λ c. c ≢ 0) first
    → length first < buffer_len
    → read_message (write_message second (write_message first []))
      ≡ some (first, write_message second [])
unfolding read_message
read_message-write_message first second h lt =
    let bytes : write_message second (write_message first [])
        ≡ first ++ (0 ∷ write_message second []) =
      write_message-append second (write_message first [])
      ∙ ap (λ l. l ++ (second ++ 0 ∷ [])) (write_message-append first [])
      ∙ append_assoc first (0 ∷ []) (second ++ 0 ∷ [])
      ∙ ap (λ l. first ++ (0 ∷ l)) (sym (write_message-append second [])) in
    rw bytes (read_bytes-message buffer_len first (write_message second []) h lt)
