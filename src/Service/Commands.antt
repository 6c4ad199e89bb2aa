-- ===== src/Service/Commands.antt =====
-- The commands "spawn" and "kill" as a whole, in the manager
-- (HierarchicalServiceManagementSystem/service.c).
use system_design.Base.{
  ◌+◌, ◌-◌, ◌≡◌, ◌⊎◌, refl, ap, subst, inl, inr, Bool-cases, true, false, List, [], ◌∷◌, ◌++◌, map,
  Option-cases, none, some, ◌==◌, arith, Text, text_eq,
}
use system_design.Service.State.{
  Children, end, child, Event, received, started, missing, spawned, killed, size,
}
use system_design.Service.Removal.{
  Removed, settle-missed, kill_children-Untouched, kill_children-Removed,
}
use system_design.Service.Spawn.{add_child, spawn}
use system_design.Service.Kill.{kill_children, settle, kill}
use system_design.Service.Names.{names, Free, find}
use system_design.Service.Adding.{
  siblings, Free-left, Free-right, my_spawn-answers, Kills, add_child-Kills,
}
use system_design.Service.Growth.{spawn_children-absent, spawn_children-Grown}

-- If `p` stands for no process, "spawn p c" changes nothing: all processes print the command, and the
-- manager prints that there is no such service.
pub spawn_missing :
    (manager p c : Text) (h : Children)
    → text_eq p manager ≡ false
    → find p h ≡ none
    → spawn manager p c h ≡ some (h, received manager ∷ map received (names h) ++ missing p ∷ [])
unfolding spawn
spawn_missing manager p c h other e = rw (other, spawn_children-absent p c h e) refl

Free-siblings : (c : Text) (h : Children) → Free c (names h) → Free c (siblings h)
Free-siblings c end f = tt
Free-siblings c (child n h next) f =
    (f.0, Free-siblings c next (Free-right c (names h) (names next) f.1))

Free-find-some :
    (p c : Text) (h sub : Children) → find p h ≡ some sub → Free c (names h) → Free c (names sub)
Free-find-some p c end sub e f = absurd cc
Free-find-some p c (child n h next) sub e f = elim (Bool-cases (text_eq n p)) [
  | inl here ↦
      let same : h ≡ sub = ground (arith, e, here) in
      subst (λ l. Free c (names l)) same (Free-left c (names h) (names next) f.1)
  | inr other ↦ elim (Option-cases (find p h)) [
    | inl absent ↦
        Free-find-some p c next sub (ground (arith, e, other, absent))
          (Free-right c (names h) (names next) f.1)
    | inr (k, below) ↦
        Free-find-some p c h sub (ground (arith, e, other, below))
          (Free-left c (names h) (names next) f.1)
  ]
]

kill-Kills :
    (manager c : Text) (h k : Children)
    → text_eq c manager ≡ false
    → Kills c k h
    → (kill manager c k).0 ≡ some h
unfolding kill
kill-Kills manager c h k other r = rw other (ap some r.settled)

-- If `p` is the manager or stands for a service, and no process has the name `c`, then "spawn p c"
-- succeeds, and "kill c" after it gives back the tree as it was.
pub kill_undoes_spawn :
    (manager p c : Text) (h : Children)
    → text_eq c manager ≡ false
    → (text_eq p manager ≡ true) ⊎ ((sub : Children) × (find p h ≡ some sub))
    → Free c (names h)
    → (k : Children) × (log : List Event) × (spawn manager p c h ≡ some (k, log))
      × ((kill manager c k).0 ≡ some h)
unfolding spawn
kill_undoes_spawn manager p c h other target f = elim (Bool-cases (text_eq p manager)) [
  | inl own ↦ (
    add_child c h,
    received manager ∷ (started c ∷ []) ++ spawned p c ∷ [],
    rw (own, my_spawn-answers c h (Free-siblings c h f)) refl,
    kill-Kills manager c h (add_child c h) other (add_child-Kills c h f),
  )
  | inr apart ↦ elim target [
    | inl own ↦ absurd (cc (own, apart))
    | inr (sub, e) ↦
        let (k, log, run, r) =
          spawn_children-Grown p c h sub e (Free-siblings c sub (Free-find-some p c h sub e f)) in
        (
          k,
          received manager ∷ log ++ spawned p c ∷ [],
          rw (apart, run) refl,
          kill-Kills manager c h k other (r.undone f),
        )
  ]
]

-- If `t` is another name than the manager's and stands for a service, "kill t" ends exactly the first
-- process of that name, in the order of the commands, and all below it: their names, which stand next
-- to one another, go, and no other does. The number printed is that of the processes below the
-- target, and the command has been printed by the processes up to the target.
pub kill_removes :
    (manager t : Text) (h sub : Children)
    → text_eq t manager ≡ false
    → find t h ≡ some sub
    → (k : Children) × (log : List Event) × (kill manager t h
        ≡ (some k, received manager ∷ log ++ killed t (size sub) ∷ []))
      × Removed t h sub k log (1 + size sub)
unfolding kill
kill_removes manager t h sub other e =
    let w = kill_children t h in
    let r = kill_children-Removed t h sub e in
    let some_ended : (w.num == 0) ≡ false = ground (arith, r.number) in
    let below : w.num - 1 ≡ size sub = omega (arith, r.number) in
    (
      settle t w,
      w.log,
      rw (other, some_ended, below) refl,
      subst (λ n. Removed t h sub (settle t w) w.log n) r.number r,
    )

-- If `t` stands for no process, "kill t" changes nothing: all processes print the command, and the
-- manager prints that there is no such service.
pub kill_missing :
    (manager t : Text) (h : Children)
    → text_eq t manager ≡ false
    → find t h ≡ none
    → kill manager t h ≡ (some h, received manager ∷ map received (names h) ++ missing t ∷ [])
unfolding kill
kill_missing manager t h other e =
    let w = kill_children t h in
    let a = kill_children-Untouched t h e in
    let none_ended : (w.num == 0) ≡ true = ground (arith, a.number) in
    rw (other, none_ended, settle-missed t w a.hit, a.head, a.log) refl
