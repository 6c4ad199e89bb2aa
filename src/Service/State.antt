-- ===== src/Service/State.antt =====
-- The tree of processes of HierarchicalServiceManagementSystem/service.c.
use system_design.Base.{ℕ, ◌+◌, Text}

-- The list `head` of a process: for each node the name of the child, the list `head` of the child
-- itself, and the next node.
pub data Children : Type 0 where
  end : Children
  child : Text → Children → Children → Children

-- The lines that the processes print.
pub data Event : Type 0 where
  received started missing : Text → Event
  spawned : Text → Text → Event
  killed : Text → ℕ → Event

-- The length of the list (`childrenNum`), and the number of processes below.
abbrev pub count : Children → ℕ
count end = 0
count (child n h next) = 1 + count next

abbrev pub size : Children → ℕ
size end = 0
size (child n h next) = 1 + (size h + size next)
