-- ===== src/Service/Tests.antt =====
-- The tree of services on concrete commands.
use system_design.Base.{◌+◌, ◌≡◌, refl, List, [], ◌∷◌, ◌++◌, map, none, some, codes, text_eq}
use system_design.Service.State.{Children, end, child, Event, received, missing, killed, size}
use system_design.Service.Spawn.{add_child, first_named, my_spawn, spawn_children, spawn}
use system_design.Service.Kill.{kill_all, delete_node, settle, kill_children, kill}
use system_design.Service.Names.{names}
use system_design.Service.Removal.{Removed}
use system_design.Service.Clashes.{spawn_clash_blocks}
use system_design.Service.Commands.{kill_removes, kill_missing, spawn_missing}

-- Manager M has the children A and D; A has the children B and C.
abbrev below_a : Children
below_a = child (codes "B") end (child (codes "C") end end)

abbrev tree : Children
tree = child (codes "A") below_a (child (codes "D") end end)

kill_a : kill (codes "M") (codes "A") tree ≡ (
  some (child (codes "D") end end),
  received (codes "M") ∷ received (codes "A") ∷ killed (codes "A") 2 ∷ [],
)
unfolding kill kill_children settle delete_node kill_all text_eq
kill_a = refl

-- A second child of one name: the manager waits for a message that does not come.
spawn_twice : spawn (codes "M") (codes "M") (codes "A") tree ≡ none
unfolding spawn my_spawn add_child first_named spawn_children text_eq
spawn_twice = refl

kill_removes_example :
    (k : Children) × (log : List Event) × (kill (codes "M") (codes "A") tree
      ≡ (some k, received (codes "M") ∷ log ++ killed (codes "A") (size below_a) ∷ []))
    × Removed (codes "A") tree below_a k log (1 + size below_a)
unfolding text_eq
kill_removes_example = kill_removes (codes "M") (codes "A") tree below_a refl refl

kill_missing_example :
    kill (codes "M") (codes "Z") tree
    ≡ (some tree, received (codes "M") ∷ map received (names tree) ++ missing (codes "Z") ∷ [])
unfolding text_eq
kill_missing_example = kill_missing (codes "M") (codes "Z") tree refl refl

spawn_missing_example :
    spawn (codes "M") (codes "Z") (codes "E") tree
    ≡ some (tree, received (codes "M") ∷ map received (names tree) ++ missing (codes "Z") ∷ [])
unfolding text_eq
spawn_missing_example = spawn_missing (codes "M") (codes "Z") (codes "E") tree refl refl

spawn_clash_blocks_example : spawn (codes "M") (codes "A") (codes "C") tree ≡ none
unfolding text_eq
spawn_clash_blocks_example =
    spawn_clash_blocks (codes "M") (codes "A") (codes "C") tree below_a refl refl refl
