-- ===== src/Threads/Totals.antt =====
-- Sums over lists of threads, and how often a thread stands in a list.
use mathlib.Core.Logic.{∥∥₁_elim}
use mathlib.Core.List.{Perm, Permᴰ as Derivation}
use system_design.Base.{
  ap₂, ℕ, zero, suc, ◌+◌, ◌≤◌, ◌≡◌, refl, ap, ◌∙◌, inl, inr, Bool-cases, false, some, List, [], ◌∷◌,
  ◌++◌, ◌==◌, arith, bit, length, get_elem?, set, get_last, drop_last, dec_lt, length-drop_last,
  get_elem?-drop_last, get_elem?-get_last, get_elem?-above,
}
use system_design.Threads.Spec.{take_out}
use system_design.Threads.Order.{set_above}

abbrev pub total : (ℕ → ℕ) → List ℕ → ℕ
total f [] = 0
total f (x ∷ xs) = f x + total f xs

abbrev pub is : ℕ → ℕ → ℕ
is u v = bit (u == v)

-- How often `u` stands in a list.
abbrev pub occurs : ℕ → List ℕ → ℕ
occurs u = total (is u)

pub total-append : (f : ℕ → ℕ) (xs ys : List ℕ) → total f (xs ++ ys) ≡ total f xs + total f ys
total-append f [] ys = omega arith
total-append f (x ∷ xs) ys = omega (arith, total-append f xs ys)

total-drop_last :
    (f : ℕ → ℕ) (x : ℕ) (xs : List ℕ)
    → f (get_last x xs) + total f (drop_last x xs) ≡ total f (x ∷ xs)
total-drop_last f x [] = refl
total-drop_last f x (y ∷ ys) = omega (arith, total-drop_last f y ys)

total-set :
    (f : ℕ → ℕ) (xs : List ℕ) (i v t : ℕ)
    → get_elem? xs i ≡ some t
    → total f (set xs i v) + f t ≡ total f xs + f v
total-set f [] i v t e = absurd (cc)
total-set f (x ∷ xs) zero v t e = let same : x ≡ t = ground arith in omega (arith, ap f same)
total-set f (x ∷ xs) (suc i) v t e = omega (arith, total-set f xs i v t e)

-- Taking a thread out takes away what it counts for.
pub total-take_out :
    (f : ℕ → ℕ) (xs : List ℕ) (i t : ℕ)
    → get_elem? xs i ≡ some t
    → total f (take_out xs i) + f t ≡ total f xs
total-take_out f [] i t e = absurd (cc)
total-take_out f (x ∷ xs) i t e = elim (dec_lt i (length xs)) [
  | yes inner ↦
      let here : get_elem? (drop_last x xs) i ≡ some t =
        ground (arith, get_elem?-drop_last x xs i) in
      omega (arith, total-set f (drop_last x xs) i (get_last x xs) t here, total-drop_last f x xs)
  | no outer ↦
      let last : get_last x xs ≡ t =
        ground (arith, get_elem?-get_last x xs, get_elem?-above (x ∷ xs) i) in
      rw (set_above (drop_last x xs) i (get_last x xs) (omega (arith, length-drop_last x xs)))
        (omega (arith, total-drop_last f x xs, ap f last))
]

pub total-cong :
    (f g : ℕ → ℕ) (t : ℕ) (xs : List ℕ)
    → ((u : ℕ) → (t == u) ≡ false → g u ≡ f u)
    → occurs t xs ≡ 0
    → total g xs ≡ total f xs
total-cong f g t [] h n = refl
total-cong f g t (x ∷ xs) h n = elim (Bool-cases (t == x)) [
  | inl same ↦ absurd (ground (arith, n))
  | inr other ↦ omega (arith, h x other, total-cong f g t xs h (ground arith))
]

-- Changing what one thread counts for.
pub total-changed :
    (f g : ℕ → ℕ) (t : ℕ) (xs : List ℕ)
    → ((u : ℕ) → (t == u) ≡ false → g u ≡ f u)
    → occurs t xs ≡ 1
    → total g xs + f t ≡ total f xs + g t
total-changed f g t [] h n = absurd (omega arith)
total-changed f g t (x ∷ xs) h n = elim (Bool-cases (t == x)) [
  | inl same ↦
      let e : t ≡ x = ground arith in
      let rest = total-cong f g t xs h (ground arith) in omega (arith, ap f e, ap g e)
  | inr other ↦ let rest = total-changed f g t xs h (ground arith) in omega (arith, h x other)
]

pub occurs-get : (xs : List ℕ) (i t : ℕ) → get_elem? xs i ≡ some t → 1 ≤ occurs t xs
occurs-get [] i t e = absurd (cc)
occurs-get (x ∷ xs) zero t e = ground arith
occurs-get (x ∷ xs) (suc i) t e = omega (arith, occurs-get xs i t e)

total-derivation : (f : ℕ → ℕ) {xs ys : List ℕ} → Derivation xs ys → total f xs ≡ total f ys
total-derivation f Derivation.nil = refl
total-derivation f (Derivation.cons e d) = ap₂ ◌+◌ (ap f e) (total-derivation f d)
total-derivation f (Derivation.swap {a} {b} {a'} {b'} {l} e e') = omega (arith, ap f e, ap f e')
total-derivation f (Derivation.trans d d') = total-derivation f d ∙ total-derivation f d'

pub total-perm : (f : ℕ → ℕ) {xs ys : List ℕ} → Perm xs ys → total f xs ≡ total f ys
total-perm f p = ∥∥₁_elim p (hlevel) (total-derivation f)

pub total_member : (f : ℕ → ℕ) (t : ℕ) (xs : List ℕ) → 1 ≤ occurs t xs → f t ≤ total f xs
total_member f t [] h = absurd (omega arith)
total_member f t (x ∷ xs) h = elim (Bool-cases (t == x)) [
  | inl same ↦ let e : t ≡ x = ground arith in omega (arith, ap f e)
  | inr other ↦ let r = total_member f t xs (ground arith) in omega arith
]
