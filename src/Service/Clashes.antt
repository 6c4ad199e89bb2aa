-- ===== src/Service/Clashes.antt =====
-- A second child of one name (HierarchicalServiceManagementSystem/service.c).
use system_design.Base.{
  if◌then◌else◌, ◌<◌, ◌≡◌, inl, inr, refl, Bool, Bool-cases, true, false, Option-cases, none, some,
  ◌==◌, arith, Text, text_eq,
}
use system_design.Service.State.{Children, end, child, count}
use system_design.Service.Spawn.{add_child, first_named, my_spawn, spawn_children, spawn}
use system_design.Service.Names.{find}
use system_design.Service.Growth.{spawn_children-absent}

-- Whether a list has a node of that name.
abbrev pub has_child : Text → Children → Bool
has_child c end = false
has_child c (child n h next) = let rest = has_child c next in if text_eq n c then true else rest

first_named-lt :
    (c : Text) (h : Children) → has_child c h ≡ true → first_named c (add_child c h) < count h
unfolding first_named add_child
first_named-lt c end e = absurd cc
first_named-lt c (child n h next) e = elim (Bool-cases (text_eq n c)) [
  | inl here ↦ rw here (omega arith)
  | inr other ↦
      let r = first_named-lt c next (ground (arith, e, other)) in rw other (omega (arith, r))
]

my_spawn-none : (c : Text) (h : Children) → has_child c h ≡ true → my_spawn c h ≡ none
unfolding my_spawn
my_spawn-none c h e =
    let early : (first_named c (add_child c h) == count h) ≡ false =
      ground (arith, first_named-lt c h e) in
    rw early refl

spawn_children-none :
    (p c : Text) (h sub : Children)
    → find p h ≡ some sub
    → has_child c sub ≡ true
    → spawn_children p c h ≡ none
unfolding spawn_children
spawn_children-none p c end sub e f = absurd cc
spawn_children-none p c (child n h next) sub e f = elim (Bool-cases (text_eq n p)) [
  | inl here ↦
      let same : h ≡ sub = ground (arith, e, here) in rw (here, my_spawn-none c h (rw same f)) refl
  | inr other ↦ elim (Option-cases (find p h)) [
    | inl absent ↦
        let r = spawn_children-none p c next sub (ground (arith, e, other, absent)) f in
        rw (other, spawn_children-absent p c h absent, r) refl
    | inr (k, below) ↦
        rw (other, spawn_children-none p c h sub (ground (arith, e, other, below)) f) refl
  ]
]

-- If the service `p` has a child `c` already, "spawn p c" does not come back: the parent waits for a
-- message of the old child, which sends none.
pub spawn_clash_blocks :
    (manager p c : Text) (h sub : Children)
    → text_eq p manager ≡ false
    → find p h ≡ some sub
    → has_child c sub ≡ true
    → spawn manager p c h ≡ none
unfolding spawn
spawn_clash_blocks manager p c h sub other e f = rw (other, spawn_children-none p c h sub e f) refl
