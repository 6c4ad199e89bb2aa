-- ===== src/Service/Kill.antt =====
-- The command "kill t" of HierarchicalServiceManagementSystem/service.c: service `t` ends, with all
-- that are below it.
use system_design.Base.{
  ℕ, ◌+◌, ◌-◌, Bool, false, List, [], ◌∷◌, ◌++◌, Option, none, some, if◌then◌else◌, ◌==◌, Text,
  text_eq, ltb,
}
use system_design.Service.State.{Children, end, child, Event, received, missing, killed}

-- The command with the mark "Y": each process passes it on to its children, adds up their replies
-- and 1 for itself, and ends. The sum of the replies of a list.
unfoldable pub kill_all : Children → ℕ
kill_all end = 0
kill_all (child n h next) = (kill_all h + 1) + kill_all next

-- `deleteNode(t)`: the first node of that name. The source calls it on a list that has one.
unfoldable pub delete_node : Text → Children → Children
delete_node t end = end
delete_node t (child n h next) =
    let rest = delete_node t next in if text_eq n t then next else child n h rest

-- The loop over the children: the list after it, what was printed, the sum of the replies, and
-- whether the target was among the children themselves.
pub record Walk : Type 0 where
  pub head : Children
  pub log : List Event
  pub num : ℕ
  pub hit : Bool

-- The list of a process at the end of the command: a child that was the target has ended and its
-- node goes.
unfoldable pub settle : Text → Walk → Children
settle t w = if w.hit then delete_node t w.head else w.head

-- Child `n` prints the command. If it is the target it ends with all below it, and otherwise it goes
-- through its own children. Its reply is the number of processes that ended; the loop stops at the
-- first that is not 0.
unfoldable pub kill_children : Text → Children → Walk
kill_children t end = record { head = end; log = []; num = 0; hit = false }
kill_children t (child n h next) =
    let below = kill_children t h in
    let behind = kill_children t next in
    let found = text_eq n t in
    let num = if found then kill_all h + 1 else below.num in
    let h' = if found then h else settle t below in
    let log = received n ∷ (if found then [] else below.log) in
    if ltb 0 num
    then record { head = child n h' next; log = log; num = num; hit = found }
    else record {
      head = child n h' behind.head;
      log = log ++ behind.log;
      num = behind.num;
      hit = behind.hit;
    }

-- The manager. If it is the target itself, all processes end: no list is left.
unfoldable pub kill : Text → Text → Children → Option Children × List Event
kill manager t h =
    let w = kill_children t h in
    if text_eq t manager then (none, received manager ∷ killed manager (kill_all h) ∷ []) else (
      some (settle t w),
      received manager ∷ w.log ++ (if w.num == 0 then missing t else killed t (w.num - 1)) ∷ [],
    )
