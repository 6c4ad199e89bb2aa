-- ===== src/Service/Spawn.antt =====
-- The command "spawn p c" of HierarchicalServiceManagementSystem/service.c: service `p` gets a new
-- child `c`. A process sends a command to a child and waits for the reply before it goes on, so one
-- command runs like a call.
use system_design.Base.{
  ℕ, ◌+◌, Bool, true, false, List, [], ◌∷◌, ◌++◌, Option, none, some, if◌then◌else◌, ◌==◌, ◌>>=◌,
  Text, text_eq,
}
use system_design.Service.State.{
  Children, end, child, Event, received, started, missing, spawned, count,
}

-- The list of a process after the command, what was printed, and the reply ("Y" is true).
pub record Answer : Type 0 where
  pub head : Children
  pub log : List Event
  pub reply : Bool

unfoldable pub add_child : Text → Children → Children
add_child c end = child c end end
add_child c (child n h next) = child n h (add_child c next)

-- The place in the list of the first child of a name: where `MySpawn`'s caller takes `rd` from.
unfoldable pub first_named : Text → Children → ℕ
first_named c end = 0
first_named c (child n h next) = if text_eq n c then 0 else 1 + first_named c next

-- `MySpawn(c)` and the wait for the "Y" that the new process sends when it starts. Under the name of
-- a child that is there already the wait is for that child, which sends nothing: `none`.
unfoldable pub my_spawn : Text → Children → Option Answer
my_spawn c h =
    let h' = add_child c h in
    if first_named c h' == count h
    then some (record { head = h'; log = started c ∷ []; reply = true })
    else none

-- The loop over the children, down to the first "Y". Child `n` prints the command; it spawns `c`
-- itself if `p` is its name, and otherwise goes through its own children.
unfoldable pub spawn_children : Text → Text → Children → Option Answer
spawn_children p c end = some (record { head = end; log = []; reply = false })
spawn_children p c (child n h next) =
    let below = spawn_children p c h in
    let behind = spawn_children p c next in
    do
      a ← if text_eq n p then my_spawn c h else below
      if a.reply
          then some (record { head = child n a.head next; log = received n ∷ a.log; reply = true })
          else (do
            b ← behind
            some (record {
              head = child n a.head b.head;
              log = received n ∷ a.log ++ b.log;
              reply = b.reply;
            }))

-- The manager: it prints the outcome in place of a reply.
unfoldable pub spawn : Text → Text → Text → Children → Option (Children × List Event)
spawn manager p c h = do
  a ← if text_eq p manager then my_spawn c h else spawn_children p c h
  some (a.head, received manager ∷ a.log ++ (if a.reply then spawned p c else missing p) ∷ [])
