-- ===== src/Service/Names.antt =====
-- The tree as a list of names, in the order in which a command reaches the processes, and the
-- service that a name stands for.
use system_design.Base.{
  ◌≡◌, false, List, [], ◌∷◌, ◌++◌, Option, none, some, if◌then◌else◌, Text, text_eq, All,
}
use system_design.Service.State.{Children, end, child}

abbrev pub names : Children → List Text
names end = []
names (child n h next) = n ∷ names h ++ names next

-- None of the names is `t`.
abbrev pub Free : Text → List Text → Type 0
Free t = All (λ n. text_eq n t ≡ false)

abbrev pub or_else : Option Children → Option Children → Option Children
or_else (some h) o = some h
or_else none o = o

-- The list of the first process of a name.
abbrev pub find : Text → Children → Option Children
find t end = none
find t (child n h next) =
    let below = find t h in
    let behind = find t next in if text_eq n t then some h else or_else below behind
