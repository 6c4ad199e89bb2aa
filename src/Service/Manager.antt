-- ===== src/Service/Manager.antt =====
-- The manager's loop of HierarchicalServiceManagementSystem/service.c: a line of the input, its words,
-- and the command, up to the one that ends the manager itself.
use system_design.Base.{
  ℕ, zero, suc, ◌-◌, ◌||◌, List, [], ◌∷◌, ◌++◌, map, Option, none, some, if◌then◌else◌, ◌==◌, ◌>>=◌,
  ltb, length, get_elem?, Text, codes, text_eq,
}
use system_design.Service.State.{Children, missing, spawned, killed}
use system_design.Service.Pipes.{buffer_len}
use system_design.Service.Decimal.{atoi}
use system_design.Service.Words.{concat, space, arguments}
use system_design.Service.Protocol.{
  Printed, heard, told, stray, spawn_word, kill_word, yes_word, no_word, start_child, spawning,
  killing, ending, first_reply, settle_node, ask,
}

-- The list of the manager, if it goes on, and what was printed.
pub record Managed : Type 0 where
  pub head : Option Children
  pub log : List Printed

-- The command that the array of words `ws` holds, after `message` was received.
module _ (manager message : Text) (h : Children) (ws : List Text) where
  unfoldable pub manage_spawn : Option Managed
  manage_spawn = do
    p ← get_elem? ws 1
    c ← get_elem? ws 2
    if text_eq p manager
        then (do
          (a, y) ← start_child c h
          some (record {
            head = some a.head;
            log =
                heard manager message ∷ map told a.log
                ++ (if text_eq y yes_word then told (spawned manager c) else stray y) ∷ [];
          }))
        else (do
          t ← ask spawning message (first_reply spawning) 0 h
          some (record {
            head = some t.head;
            log =
                heard manager message ∷ t.log
                ++ (if text_eq t.reply no_word
                    then told (missing p)
                    else (if text_eq t.reply yes_word then told (spawned p c) else stray t.reply))
                  ∷ [];
          }))

  -- `strcpy(message, concat(message, " N"))`, which does not fit beyond 127 bytes.
  unfoldable pub marked : Option Text
  marked = let m = concat message (codes " N") in if ltb (length m) buffer_len then some m else none

  unfoldable pub manage_kill : Option Managed
  manage_kill = do
    command ← get_elem? ws 0
    t ← get_elem? ws 1
    m ← marked
    if text_eq t manager
        then (do
          w ←
              ask ending (concat (concat (concat command space) t) (codes "  Y"))
                (first_reply ending) 0 h
          some (record {
            head = none;
            log = heard manager message ∷ w.log ++ told (killed manager w.num) ∷ [];
          }))
        else (do
          w ← ask (killing t) m (first_reply (killing t)) 0 h
          k ← atoi w.reply
          some (record {
            head = some (settle_node t w);
            log =
                heard manager message ∷ w.log
                ++ (if w.num == 0 then told (missing t) else told (killed t (k - 1))) ∷ [];
          }))

-- One round of the loop, on a line of the input. The command "exchange" is in `Asking`; another
-- command is printed and does nothing.
unfoldable pub obey : Text → Text → Children → Option Managed
obey manager message h = do
  ws ← arguments message
  command ← get_elem? ws 0
  if text_eq command kill_word
      then manage_kill manager message h ws
      else (if text_eq command spawn_word
          then manage_spawn manager message h ws
          else some (record { head = some h; log = heard manager message ∷ [] }))

-- The loop over `fgetc(stdin)` with room for `n` more bytes: the command, and the input that is left.
-- A byte 255 is `EOF` as a `char`. Where a line is longer than the room, the byte after it is lost.
unfoldable pub read_line : ℕ → Text → Text × Text
read_line n [] = ([], [])
read_line zero (c ∷ input) = ([], input)
read_line (suc n) (c ∷ input) =
    let more = read_line n input in
    if c == b'\n' || c == 255 then ([], input) else (c ∷ more.0, more.1)

-- After a round: the next ones, unless the manager has ended.
unfoldable pub and_then : Managed → (Children → Option Managed) → Option Managed
and_then o next = go o.head
  where
    go : Option Children → Option Managed
    go none = some o
    go (some h) = do rest ← next h; some (record { head = rest.head; log = o.log ++ rest.log })

-- The first `n` rounds of the loop, or fewer if the manager ends.
unfoldable pub run_manager : ℕ → Text → Text → Children → Option Managed
run_manager zero manager input h = some (record { head = some h; log = [] })
run_manager (suc n) manager input h =
    let got = read_line 127 input in
    do o ← obey manager got.0 h; and_then o (λ h'. run_manager n manager got.1 h')
