-- ===== src/Service/Removal.antt =====
-- What "kill" does to the tree (HierarchicalServiceManagementSystem/service.c).
use mathlib.Core.List.{append_assoc, map-append}
use system_design.Base.{
  ℕ, ◌+◌, ◌≡◌, refl, sym, ap, ap₂, ◌∙◌, inl, inr, Bool, Bool-cases, true, false, List, [], ◌∷◌,
  ◌++◌, map, Option-cases, none, some, ltb, arith, Text, text_eq, text_eq_sound,
}
use system_design.Service.State.{Children, end, child, Event, received, size}
use system_design.Service.Kill.{kill_all, delete_node, Walk, settle, kill_children}
use system_design.Service.Names.{names, Free, find}

pub Free-append : (t : Text) (xs ys : List Text) → Free t xs → Free t ys → Free t (xs ++ ys)
Free-append t [] ys h k = k
Free-append t (x ∷ xs) ys h k = (h.0, Free-append t xs ys h.1 k)

pub kill_all-size : (h : Children) → kill_all h ≡ size h
unfolding kill_all
kill_all-size end = refl
kill_all-size (child n h next) = omega (arith, kill_all-size h, kill_all-size next)

-- A name that stands for no process.
pub find-none :
    (t n : Text) (h next : Children)
    → find t (child n h next) ≡ none
    → (text_eq n t ≡ false) × (find t h ≡ none) × (find t next ≡ none)
find-none t n h next e = elim (Bool-cases (text_eq n t)) [
  | inl found ↦ absurd (ground (arith, e, found))
  | inr other ↦ elim (Option-cases (find t h)) [
    | inl absent ↦ (other, absent, ground (arith, e, other, absent))
    | inr (sub, below) ↦ absurd (ground (arith, e, other, below))
  ]
]

pub find-Free : (t : Text) (h : Children) → find t h ≡ none → Free t (names h)
find-Free t end e = tt
find-Free t (child n h next) e =
    let (other, absent, behind) = find-none t n h next e in
    (other, Free-append t (names h) (names next) (find-Free t h absent) (find-Free t next behind))

pub record Untouched (h : Children) (w : Walk) : Type 0 where
  pub number : w.num ≡ 0
  pub head : w.head ≡ h
  pub hit : w.hit ≡ false
  pub log : w.log ≡ map received (names h)

pub kill_children-Untouched :
    (t : Text) (h : Children) → find t h ≡ none → Untouched h (kill_children t h)
unfolding kill_children settle
kill_children-Untouched t end e = record { number = refl; head = refl; hit = refl; log = refl }
kill_children-Untouched t (child n h next) e =
    let (other, absent, behind) = find-none t n h next e in
    let a = kill_children-Untouched t h absent in
    let b = kill_children-Untouched t next behind in
    let kept = ap₂ (child n) a.head b.head in
    let printed =
      ap (λ l. received n ∷ l)
        (ap₂ ◌++◌ a.log b.log ∙ sym (map-append received (names h) (names next))) in
    rw (other, a.number, a.hit)
      (record { number = b.number; head = kept; hit = b.hit; log = printed })

-- What the loop of one list does when the target is below: `before` are the names that come before
-- the target.
pub record Removed (t : Text) (h sub k : Children) (log : List Event) (num : ℕ) : Type 0 where
  pub before : List Text
  pub after : List Text
  pub free : Free t before
  pub names_before : names h ≡ before ++ (t ∷ names sub ++ after)
  pub names_after : names k ≡ before ++ after
  pub printed : log ≡ map received (before ++ t ∷ [])
  pub number : num ≡ 1 + size sub

module _ {t n : Text} {h next sub : Children} where
  Removed-here :
      text_eq n t ≡ true
      → find t (child n h next) ≡ some sub
      → Removed t (child n h next) sub next (received n ∷ []) (kill_all h + 1)
  Removed-here here e =
      let same : h ≡ sub = ground (arith, e, here) in
      let name = text_eq_sound n t here in
      record {
        before = [];
        after = names next;
        free = tt;
        names_before = ap₂ (λ m k. m ∷ names k ++ names next) name same;
        names_after = refl;
        printed = ap (λ m. received m ∷ []) name;
        number = omega (arith, kill_all-size h, ap size same);
      }

  Removed-below :
      {k : Children} {log : List Event} {num : ℕ}
      → text_eq n t ≡ false
      → Removed t h sub k log num
      → Removed t (child n h next) sub (child n k next) (received n ∷ log) num
  Removed-below other r = record {
    before = n ∷ r.before;
    after = r.after ++ names next;
    free = (other, r.free);
    names_before =
        ap (λ l. n ∷ l)
          (ap (λ l. l ++ names next) r.names_before
            ∙ append_assoc r.before _ _
            ∙ ap (λ l. r.before ++ (t ∷ l)) (append_assoc (names sub) r.after (names next)));
    names_after =
        ap (λ l. n ∷ l) (ap (λ l. l ++ names next) r.names_after ∙ append_assoc r.before _ _);
    printed = ap (λ l. received n ∷ l) r.printed;
    number = r.number;
  }

  Removed-behind :
      {k : Children} {log : List Event} {num : ℕ}
      → text_eq n t ≡ false
      → find t h ≡ none
      → Removed t next sub k log num
      → Removed t
          (child n h next)
          sub
          (child n h k)
          (received n ∷ map received (names h) ++ log)
          num
  Removed-behind other absent r = record {
    before = n ∷ names h ++ r.before;
    after = r.after;
    free = (other, Free-append t (names h) r.before (find-Free t h absent) r.free);
    names_before =
        ap (λ l. n ∷ l)
          (ap (λ l. names h ++ l) r.names_before ∙ sym (append_assoc (names h) r.before _));
    names_after =
        ap (λ l. n ∷ l)
          (ap (λ l. names h ++ l) r.names_after ∙ sym (append_assoc (names h) r.before _));
    printed =
        ap (λ l. received n ∷ l)
          (ap (λ l. map received (names h) ++ l) r.printed
            ∙ sym (map-append received (names h) (r.before ++ t ∷ []))
            ∙ ap (map received) (sym (append_assoc (names h) r.before (t ∷ []))));
    number = r.number;
  }

pub settle-here :
    (t n : Text) (h next : Children) (log : List Event) (num : ℕ)
    → text_eq n t ≡ true
    → settle t (record { head = child n h next; log = log; num = num; hit = true }) ≡ next
unfolding settle delete_node
settle-here t n h next log num here = rw here refl

pub settle-missed : (t : Text) (w : Walk) → w.hit ≡ false → settle t w ≡ w.head
unfolding settle
settle-missed t w missed = rw missed refl

pub settle-child :
    (t n : Text) (h k : Children) (log : List Event) (num : ℕ) (hit : Bool)
    → text_eq n t ≡ false
    → settle t (record { head = child n h k; log = log; num = num; hit = hit })
      ≡ child n h (settle t (record { head = k; log = log; num = num; hit = hit }))
unfolding settle delete_node
settle-child t n h k log num true other = rw other refl
settle-child t n h k log num false other = refl

pub settle-walk :
    (t : Text) (v w : Walk) → v.head ≡ w.head → v.hit ≡ w.hit → settle t v ≡ settle t w
unfolding settle
settle-walk t v w same hit = rw (same, hit) refl

Removed-along :
    {t : Text} {h sub k k' : Children} {log log' : List Event} {num : ℕ}
    → k ≡ k'
    → log ≡ log'
    → Removed t h sub k' log' num
    → Removed t h sub k log num
Removed-along e e' r = record {
  before = r.before;
  after = r.after;
  free = r.free;
  names_before = r.names_before;
  names_after = ap names e ∙ r.names_after;
  printed = e' ∙ r.printed;
  number = r.number;
}

abbrev RemovedBy : Text → Children → Children → Walk → Type 0
RemovedBy t h sub w = Removed t h sub (settle t w) w.log w.num

pub kill_children-Removed :
    (t : Text) (h sub : Children) → find t h ≡ some sub → RemovedBy t h sub (kill_children t h)
unfolding kill_children
kill_children-Removed t end sub e = absurd cc
kill_children-Removed t (child n h next) sub e = elim (Bool-cases (text_eq n t)) [
  | inl here ↦
      let positive : ltb 0 (kill_all h + 1) ≡ true = ground arith in
      rw (here, positive)
        (Removed-along (settle-here t n h next _ _ here) refl (Removed-here here e))
  | inr other ↦ elim (Option-cases (find t h)) [
    | inl absent ↦
        let a = kill_children-Untouched t h absent in
        let w = kill_children t next in
        let r = kill_children-Removed t next sub (ground (arith, e, other, absent)) in
        let whole : settle t (kill_children t h) ≡ h = settle-missed t _ a.hit ∙ a.head in
        let nothing : ltb 0 (kill_children t h).num ≡ false = ground (arith, a.number) in
        rw (other, nothing)
          (Removed-along
            (settle-child t n _ w.head _ _ w.hit other
              ∙ ap₂ (child n) whole (settle-walk t _ w refl refl))
            (ap (λ l. received n ∷ l ++ w.log) a.log) (Removed-behind other absent r))
    | inr (k, below) ↦
        let r = kill_children-Removed t h sub (ground (arith, e, other, below)) in
        let positive : ltb 0 (kill_children t h).num ≡ true = ground (arith, r.number) in
        rw (other, positive) (Removed-along (settle-missed t _ refl) refl (Removed-below other r))
  ]
]
