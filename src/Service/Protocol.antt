-- ===== src/Service/Protocol.antt =====
-- The commands as messages between the processes (HierarchicalServiceManagementSystem/service.c): what
-- a service does with a message from its parent, and the loops in which a process sends a message to
-- its children, one after the other, and reads the reply of each. After every reply the pipes are
-- empty again. `none` is a fault or a wait for ever.
use system_design.Base.{
  ℕ, ◌+◌, Bool, true, false, ◌&&◌, ◌||◌, not, List, [], ◌∷◌, ◌++◌, map, Option, none, some,
  if◌then◌else◌, ◌>>=◌, ltb, length, get_elem?, Text, codes, text_eq,
}
use system_design.Service.State.{Children, end, child, Event}
use system_design.Service.Spawn.{Answer, my_spawn}
use system_design.Service.Kill.{delete_node}
use system_design.Service.Pipes.{write_message, read_message}
use system_design.Service.Decimal.{int_to_str, atoi}
use system_design.Service.Words.{concat, space, arguments}

-- The lines that the processes print: a command that was received, with its text; an outcome; and a
-- reply that is neither "Y" nor "N".
pub data Printed : Type 0 where
  heard : Text → Text → Printed
  told : Event → Printed
  stray : Text → Printed

abbrev pub spawn_word : Text
spawn_word = codes "spawn"

abbrev pub kill_word : Text
kill_word = codes "kill"

-- `ansY`, `ansN`, and the marks of the command "kill".
abbrev pub yes_word : Text
yes_word = codes "Y"

abbrev pub no_word : Text
no_word = codes "N"

-- A message is written into an empty pipe and read at the other end.
unfoldable pub hand_over : Text → Option Text
hand_over msg = do (m, _) ← read_message (write_message msg []); some m

-- What a process writes to its parent when it starts. One of the name "Manager" takes itself for the
-- manager: it writes nothing.
abbrev pub manager_name : Text
manager_name = codes "Manager"

unfoldable pub start_message : Text → Option Text
start_message c = if text_eq c manager_name then none else some yes_word

-- `MySpawn(c)`, which copies the name into `name[MAX_SERVICE_NAME_LEN]`, and the "Y" of the new process.
unfoldable pub start_child : Text → Children → Option (Answer × Text)
start_child c h =
    if ltb (length c) 16
    then (do a ← my_spawn c h; m ← start_message c; y ← hand_over m; some (a, y))
    else none

-- The loops over the children: down to the first "Y"; down to the first reply above 0, where a child
-- of the given name is waited for and its node deleted; and over all, each of which is waited for.
pub data Loop : Type 0 where
  spawning : Loop
  killing : Text → Loop
  ending : Loop

-- The first value of `reply`.
abbrev pub first_reply : Loop → Text
first_reply spawning = no_word
first_reply (killing t) = codes "0"
first_reply ending = codes "0"

-- A process after such a loop: its list, what was printed, `reply`, `num`, and whether a node is
-- deleted.
pub record Asked : Type 0 where
  pub head : Children
  pub log : List Printed
  pub reply : Text
  pub num : ℕ
  pub hit : Bool

-- A service after a message: its list, what was printed, its reply, and whether it has ended.
pub record Answered : Type 0 where
  pub head : Children
  pub log : List Printed
  pub reply : Text
  pub ended : Bool

-- The list after "kill t".
unfoldable pub settle_node : Text → Asked → Children
settle_node t w = if w.hit then delete_node t w.head else w.head

-- "kill t" with the mark "Y" behind it.
abbrev pub final_message : Text → Text → Text
final_message command t = concat (concat (concat command space) t) (codes " Y")

-- Service `n` with the list `h`, on the message `m`; `below` is a loop over its own children.
module _ (below : Loop → Text → Option Asked) (n m : Text) (h : Children) (ws : List Text) where
  unfoldable pub serve_spawn : Option Answered
  serve_spawn = do
    p ← get_elem? ws 1
    c ← get_elem? ws 2
    if text_eq n p
        then (do
          (a, y) ← start_child c h
          some (record {
            head = a.head;
            log = heard n m ∷ map told a.log;
            reply = y;
            ended = false;
          }))
        else (do
          t ← below spawning m
          some (record { head = t.head; log = heard n m ∷ t.log; reply = t.reply; ended = false }))

  -- The source takes any other mark for "Y"; the node of a service that ends by such a mark stays in
  -- its parent's list, and such a message is left out: `none`.
  unfoldable pub serve_kill : Option Answered
  serve_kill = do
    command ← get_elem? ws 0
    t ← get_elem? ws 1
    tag ← get_elem? ws 2
    let print = if text_eq tag no_word then heard n (concat (concat command space) t) ∷ [] else []
    if text_eq n t
        then (do
          w ← below ending (final_message command t)
          some (record {
            head = h;
            log = print ++ w.log;
            reply = int_to_str (w.num + 1);
            ended = true;
          }))
        else if text_eq tag no_word
        then (do
          w ← below (killing t) m
          some (record {
            head = settle_node t w;
            log = print ++ w.log;
            reply = int_to_str w.num;
            ended = false;
          }))
        else if text_eq tag yes_word
        then (do
          w ← below ending m
          some (record {
            head = h;
            log = print ++ w.log;
            reply = int_to_str (w.num + 1);
            ended = true;
          }))
        else none

-- One round of `while(1)` in a service. The command "exchange" is in `Asking`; another command has
-- no reply.
unfoldable pub serve_message :
    (Loop → Text → Option Asked) → Text → Text → Children → Option Answered
serve_message below n m h = do
  ws ← arguments m
  command ← get_elem? ws 0
  if text_eq command spawn_word
      then serve_spawn below n m h ws
      else (if text_eq command kill_word then serve_kill below n m h ws else none)

-- `num` after a reply, and whether the loop stops there.
unfoldable pub count_reply : Loop → ℕ → Text → Option (ℕ × Bool)
count_reply spawning num reply = some (num, text_eq reply yes_word)
count_reply (killing t) num reply = do k ← atoi reply; some (num + k, ltb 0 (num + k))
count_reply ending num reply = do k ← atoi reply; some (num + k, false)

-- Whether the loop waits for the end of child `n`, and whether it deletes the node.
abbrev pub awaits : Loop → Text → Bool
awaits spawning n = false
awaits (killing t) n = text_eq n t
awaits ending n = true

abbrev pub deletes : Loop → Text → Bool
deletes spawning n = false
deletes (killing t) n = text_eq n t
deletes ending n = false

-- The loop with the message `msg`, from `reply` and `num` on.
unfoldable pub ask : Loop → Text → Text → ℕ → Children → Option Asked
ask loop msg reply num end =
    some (record { head = end; log = []; reply = reply; num = num; hit = false })
ask loop msg reply num (child n h next) = do
  m ← hand_over msg
  s ← serve_message (λ l m'. ask l m' (first_reply l) 0 h) n m h
  r ← hand_over s.reply
  (num', stop) ← count_reply loop num r
  if awaits loop n && not s.ended
      then none
      else (if stop
          then some (record {
            head = child n s.head next;
            log = s.log;
            reply = r;
            num = num';
            hit = deletes loop n;
          })
          else (do
            rest ← ask loop msg r num' next
            some (record {
              head = child n s.head rest.head;
              log = s.log ++ rest.log;
              reply = rest.reply;
              num = rest.num;
              hit = deletes loop n || rest.hit;
            })))
