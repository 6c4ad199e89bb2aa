-- ===== src/Service/Growth.antt =====
-- What "spawn" does to the tree (HierarchicalServiceManagementSystem/service.c).
use mathlib.Core.List.{append_assoc, map-append}
use system_design.Base.{
  ◌≡◌, refl, sym, ap, ap₂, subst, ◌∙◌, inl, inr, Bool-cases, true, false, List, [], ◌∷◌, ◌++◌, map,
  Option-cases, none, some, arith, Text, text_eq, text_eq_sound,
}
use system_design.Service.State.{Children, end, child, Event, received, started}
use system_design.Service.Spawn.{add_child, spawn_children}
use system_design.Service.Names.{names, Free, find}
use system_design.Service.Removal.{Free-append, find-none, find-Free}
use system_design.Service.Adding.{
  siblings, Free-left, Free-right, Free-find, names-add_child, my_spawn-answers, Kills, Kills-below,
  Kills-behind, add_child-Kills,
}

-- The list `h` with a new child `c` of the service `p`, whose list was `sub`; `before` are the names
-- that come before `p`.
pub record Grown (p c : Text) (h sub k : Children) (log : List Event) : Type 0 where
  pub before : List Text
  pub after : List Text
  pub free : Free p before
  pub names_before : names h ≡ before ++ (p ∷ names sub ++ after)
  pub names_after : names k ≡ before ++ (p ∷ names sub ++ (c ∷ after))
  pub printed : log ≡ map received (before ++ p ∷ []) ++ started c ∷ []
  pub found : find p k ≡ some (add_child c sub)
  pub undone : Free c (names h) → Kills c k h

module _ {p c n : Text} {h next : Children} where
  Grown-here :
      text_eq n p ≡ true
      → Grown p c (child n h next) h (child n (add_child c h) next) (received n ∷ started c ∷ [])
  Grown-here here =
      let name = text_eq_sound n p here in
      record {
        before = [];
        after = names next;
        free = tt;
        names_before = ap (λ m. m ∷ names h ++ names next) name;
        names_after =
            ap₂ (λ m l. m ∷ l ++ names next) name (names-add_child c h)
            ∙ ap (λ l. p ∷ l) (append_assoc (names h) (c ∷ []) (names next));
        printed = ap (λ m. received m ∷ started c ∷ []) name;
        found = rw here refl;
        undone = λ f.
            Kills-below c n (add_child c h) next f.0 h
              (add_child-Kills c h (Free-left c (names h) (names next) f.1));
      }

  module _ {sub k : Children} {log : List Event} where
    Grown-below :
        text_eq n p ≡ false
        → Grown p c h sub k log
        → Grown p c (child n h next) sub (child n k next) (received n ∷ log)
    Grown-below other r = record {
      before = n ∷ r.before;
      after = r.after ++ names next;
      free = (other, r.free);
      names_before =
          ap (λ l. n ∷ l)
            (ap (λ l. l ++ names next) r.names_before
              ∙ append_assoc r.before _ _
              ∙ ap (λ l. r.before ++ (p ∷ l)) (append_assoc (names sub) r.after (names next)));
      names_after =
          ap (λ l. n ∷ l)
            (ap (λ l. l ++ names next) r.names_after
              ∙ append_assoc r.before _ _
              ∙ ap (λ l. r.before ++ (p ∷ l))
                  (append_assoc (names sub) (c ∷ r.after) (names next)));
      printed = ap (λ l. received n ∷ l) r.printed;
      found = rw (other, r.found) refl;
      undone =
          λ f. Kills-below c n k next f.0 h (r.undone (Free-left c (names h) (names next) f.1));
    }

    Grown-behind :
        text_eq n p ≡ false
        → find p h ≡ none
        → Grown p c next sub k log
        → Grown p c (child n h next) sub (child n h k) (received n ∷ map received (names h) ++ log)
    Grown-behind other absent r = record {
      before = n ∷ names h ++ r.before;
      after = r.after;
      free = (other, Free-append p (names h) r.before (find-Free p h absent) r.free);
      names_before =
          ap (λ l. n ∷ l)
            (ap (λ l. names h ++ l) r.names_before ∙ sym (append_assoc (names h) r.before _));
      names_after =
          ap (λ l. n ∷ l)
            (ap (λ l. names h ++ l) r.names_after ∙ sym (append_assoc (names h) r.before _));
      printed =
          ap (λ l. received n ∷ l)
            (ap (λ l. map received (names h) ++ l) r.printed
              ∙ sym (append_assoc (map received (names h)) _ (started c ∷ []))
              ∙ ap (λ l. l ++ started c ∷ [])
                  (sym (map-append received (names h) (r.before ++ p ∷ []))
                    ∙ ap (map received) (sym (append_assoc (names h) r.before (p ∷ [])))));
      found = rw (other, absent, r.found) refl;
      undone = λ f.
          Kills-behind c n h k f.0 next (Free-find c h (Free-left c (names h) (names next) f.1))
            (r.undone (Free-right c (names h) (names next) f.1));
    }

pub spawn_children-absent :
    (p c : Text) (h : Children)
    → find p h ≡ none
    → spawn_children p c h ≡ some (record { head = h; log = map received (names h); reply = false })
unfolding spawn_children
spawn_children-absent p c end e = refl
spawn_children-absent p c (child n h next) e =
    let (other, absent, behind) = find-none p n h next e in
    rw (other, spawn_children-absent p c h absent, spawn_children-absent p c next behind)
      (ap (λ l. some (record { head = child n h next; log = received n ∷ l; reply = false }))
        (sym (map-append received (names h) (names next))))

pub spawn_children-Grown :
    (p c : Text) (h sub : Children)
    → find p h ≡ some sub
    → Free c (siblings sub)
    → (k : Children) × (log : List Event) × (spawn_children p c h
        ≡ some (record { head = k; log = log; reply = true }))
      × Grown p c h sub k log
unfolding spawn_children
spawn_children-Grown p c end sub e f = absurd cc
spawn_children-Grown p c (child n h next) sub e f = elim (Bool-cases (text_eq n p)) [
  | inl here ↦
      let same : h ≡ sub = ground (arith, e, here) in
      let fresh = subst (λ l. Free c (siblings l)) (sym same) f in
      (
        child n (add_child c h) next,
        received n ∷ started c ∷ [],
        rw (here, my_spawn-answers c h fresh) refl,
        subst
            (λ l.
              Grown p c (child n h next) l (child n (add_child c h) next)
                (received n ∷ started c ∷ []))
            same (Grown-here here),
      )
  | inr other ↦ elim (Option-cases (find p h)) [
    | inl absent ↦
        let (k, log, run, r) =
          spawn_children-Grown p c next sub (ground (arith, e, other, absent)) f in
        (
          child n h k,
          received n ∷ map received (names h) ++ log,
          rw (other, spawn_children-absent p c h absent, run) refl,
          Grown-behind other absent r,
        )
    | inr (l, below) ↦
        let (k, log, run, r) = spawn_children-Grown p c h sub (ground (arith, e, other, below)) f in
        (child n k next, received n ∷ log, rw (other, run) refl, Grown-below other r)
  ]
]
