-- ===== src/Service/Adding.antt =====
-- A new node at the end of a list, and "kill" of it
-- (HierarchicalServiceManagementSystem/service.c).
use mathlib.Core.List.{append_assoc}
use system_design.Base.{
  ◌+◌, ◌≡◌, refl, sym, ap, ap₂, ◌∙◌, true, false, List, [], ◌∷◌, ◌++◌, none, some, ltb, ◌==◌, arith,
  Text, text_eq, text_eq_refl,
}
use system_design.Service.State.{Children, end, child, started, count}
use system_design.Service.Spawn.{add_child, first_named, my_spawn}
use system_design.Service.Kill.{kill_all, settle, kill_children}
use system_design.Service.Names.{names, Free, find}
use system_design.Service.Removal.{
  kill_children-Untouched, settle-here, settle-missed, settle-child, settle-walk,
}

-- The names of the nodes of one list.
abbrev pub siblings : Children → List Text
siblings end = []
siblings (child n h next) = n ∷ siblings next

pub Free-left : (t : Text) (xs ys : List Text) → Free t (xs ++ ys) → Free t xs
Free-left t [] ys h = tt
Free-left t (x ∷ xs) ys h = (h.0, Free-left t xs ys h.1)

pub Free-right : (t : Text) (xs ys : List Text) → Free t (xs ++ ys) → Free t ys
Free-right t [] ys h = h
Free-right t (x ∷ xs) ys h = Free-right t xs ys h.1

pub Free-find : (t : Text) (h : Children) → Free t (names h) → find t h ≡ none
Free-find t end f = refl
Free-find t (child n h next) f =
    rw
      (
        f.0,
        Free-find t h (Free-left t (names h) (names next) f.1),
        Free-find t next (Free-right t (names h) (names next) f.1),
      )
      refl

first_named-add_child :
    (c : Text) (h : Children) → Free c (siblings h) → first_named c (add_child c h) ≡ count h
unfolding first_named add_child
first_named-add_child c end f = rw (text_eq_refl c) refl
first_named-add_child c (child n h next) f =
    rw f.0 (ap (λ k. 1 + k) (first_named-add_child c next f.1))

pub names-add_child : (c : Text) (h : Children) → names (add_child c h) ≡ names h ++ c ∷ []
unfolding add_child
names-add_child c end = refl
names-add_child c (child n h next) =
    ap (λ l. n ∷ l)
      (ap (λ l. names h ++ l) (names-add_child c next)
        ∙ sym (append_assoc (names h) (names next) (c ∷ [])))

pub my_spawn-answers :
    (c : Text) (h : Children)
    → Free c (siblings h)
    → my_spawn c h ≡ some (record { head = add_child c h; log = started c ∷ []; reply = true })
unfolding my_spawn
my_spawn-answers c h f =
    let last : (first_named c (add_child c h) == count h) ≡ true =
      ground (arith, first_named-add_child c h f) in
    rw last refl

-- "kill c" ends one process, and leaves `k`.
pub record Kills (c : Text) (h k : Children) : Type 0 where
  pub settled : settle c (kill_children c h) ≡ k
  pub number : (kill_children c h).num ≡ 1

module _ (c n : Text) (h next : Children) (other : text_eq n c ≡ false) where
  pub Kills-below : (k : Children) → Kills c h k → Kills c (child n h next) (child n k next)
  unfolding kill_children
  Kills-below k r =
      let positive : ltb 0 (kill_children c h).num ≡ true = ground (arith, r.number) in
      record {
        settled =
            rw (other, positive) (settle-missed c _ refl ∙ ap (λ l. child n l next) r.settled);
        number = rw (other, positive) r.number;
      }

  pub Kills-behind :
      (k : Children) → find c h ≡ none → Kills c next k → Kills c (child n h next) (child n h k)
  unfolding kill_children
  Kills-behind k absent r =
      let a = kill_children-Untouched c h absent in
      let w = kill_children c next in
      let nothing : ltb 0 (kill_children c h).num ≡ false = ground (arith, a.number) in
      let whole : settle c (kill_children c h) ≡ h = settle-missed c _ a.hit ∙ a.head in
      record {
        settled =
            rw (other, nothing)
              (settle-child c n _ w.head _ _ w.hit other
                ∙ ap₂ (child n) whole (settle-walk c _ w refl refl ∙ r.settled));
        number = rw (other, nothing) r.number;
      }

pub add_child-Kills : (c : Text) (h : Children) → Free c (names h) → Kills c (add_child c h) h
unfolding add_child kill_children kill_all
add_child-Kills c end f = record {
  settled = rw (text_eq_refl c) (settle-here c c end end _ _ (text_eq_refl c));
  number = rw (text_eq_refl c) refl;
}
add_child-Kills c (child n h next) f =
    Kills-behind c n h (add_child c next) f.0 next
      (Free-find c h (Free-left c (names h) (names next) f.1))
      (add_child-Kills c next (Free-right c (names h) (names next) f.1))
