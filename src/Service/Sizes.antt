-- ===== src/Service/Sizes.antt =====
-- How many processes a command of HierarchicalServiceManagementSystem/service.c leaves.
use system_design.Base.{
  ℕ, ◌+◌, ◌≤◌, ◌≡◌, refl, subst, Bool-cases, inl, inr, List, Option, Option-cases, none, some,
  if◌then◌else◌, ◌==◌, Text, text_eq, arith,
}
use system_design.Service.State.{Children, end, child, Event, size, count}
use system_design.Service.Spawn.{Answer, spawn, spawn_children, my_spawn, first_named, add_child}
use system_design.Service.Kill.{kill_children, Walk, settle, kill, delete_node}

size-add_child : (c : Text) (h : Children) → size (add_child c h) ≡ size h + 1
unfolding add_child
size-add_child c end = refl
size-add_child c (child n h next) = omega (arith, size-add_child c next)

-- One process more if the reply is "Y", and the same number if not.
abbrev Grows : Children → Option Answer → Type 0
Grows h none = Unit
Grows h (some a) = size a.head ≡ size h + (if a.reply then 1 else 0)

my_spawn-Grows : (c : Text) (h : Children) → Grows h (my_spawn c h)
unfolding my_spawn
my_spawn-Grows c h = elim (Bool-cases (first_named c (add_child c h) == count h)) [
  | inl first ↦ rw first (size-add_child c h)
  | inr later ↦ rw later tt
]

spawn_children-Grows : (p c : Text) (h : Children) → Grows h (spawn_children p c h)
unfolding spawn_children
spawn_children-Grows p c end = omega arith
spawn_children-Grows p c (child n h next) =
    let first : Grows h (if text_eq n p then my_spawn c h else spawn_children p c h) =
      elim (Bool-cases (text_eq n p)) [
        | inl own ↦ rw own (my_spawn-Grows c h)
        | inr other ↦ rw other (spawn_children-Grows p c h)
      ] in
    elim (Option-cases (if text_eq n p then my_spawn c h else spawn_children p c h)) [
      | inl stuck ↦ rw stuck tt
      | inr (a, e) ↦
          let more : Grows h (some a) = subst (Grows h) e first in
          elim (Bool-cases a.reply) [
            | inl done ↦ rw (e, done) (ground (arith, more, done))
            | inr absent ↦ elim (Option-cases (spawn_children p c next)) [
              | inl stuck ↦ rw (e, absent, stuck) tt
              | inr (b, f) ↦
                  let behind : Grows next (some b) =
                    subst (Grows next) f (spawn_children-Grows p c next) in
                  rw (e, absent, f) (ground (arith, more, behind, absent))
            ]
          ]
    ]

size-delete_node : (t : Text) (h : Children) → size (delete_node t h) ≤ size h
unfolding delete_node
size-delete_node t end = omega arith
size-delete_node t (child n h next) = ground (arith, size-delete_node t next)

size-settle : (t : Text) (w : Walk) → size (settle t w) ≤ size w.head
unfolding settle
size-settle t w = ground (arith, size-delete_node t w.head)

size-kill_children : (t : Text) (h : Children) → size (kill_children t h).head ≤ size h
unfolding kill_children
size-kill_children t end = omega arith
size-kill_children t (child n h next) =
    ground
      (arith, size-settle t (kill_children t h), size-kill_children t h, size-kill_children t next)

-- The manager's list after a command is at most one process larger.
abbrev pub Bounded : ℕ → Option Children → Type 0
Bounded n none = Unit
Bounded n (some k) = size k ≤ n

pub kill-Bounded : (manager t : Text) (h : Children) → Bounded (size h + 1) (kill manager t h).0
unfolding kill
kill-Bounded manager t h = elim (Bool-cases (text_eq t manager)) [
  | inl own ↦ rw own tt
  | inr other ↦ rw other (omega (arith, size-settle t (kill_children t h), size-kill_children t h))
]

abbrev pub Kept : ℕ → Option (Children × List Event) → Type 0
Kept n none = Unit
Kept n (some (k, log)) = size k ≤ n

pub spawn-Kept : (manager p c : Text) (h : Children) → Kept (size h + 1) (spawn manager p c h)
unfolding spawn
spawn-Kept manager p c h =
    let first : Grows h (if text_eq p manager then my_spawn c h else spawn_children p c h) =
      elim (Bool-cases (text_eq p manager)) [
        | inl own ↦ rw own (my_spawn-Grows c h)
        | inr other ↦ rw other (spawn_children-Grows p c h)
      ] in
    elim (Option-cases (if text_eq p manager then my_spawn c h else spawn_children p c h)) [
      | inl stuck ↦ rw stuck tt
      | inr (a, f) ↦
          let more : Grows h (some a) = subst (Grows h) f first in rw f (ground (arith, more))
    ]
