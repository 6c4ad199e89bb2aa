-- ===== src/Base/Lists.antt =====
-- Lists measured and indexed by native numbers, under the library's names.
use Prim.Native.Nat.{ℕ, zero, suc, ◌+◌}
use mathlib.Core.Path.{◌≡◌, refl, ap}
use mathlib.Core.Logic.{◌≢◌}
use mathlib.Core.List.{List, [], ◌∷◌, ◌++◌}
use mathlib.Core.Option.{Option, none, some}
use mathlib.Core.Bool.{false, ◌&&◌}
use native.Mathlib.Omega.{arith}
use system_design.Base.Tests.{ltb, ◌==◌, if◌then◌else◌}

module _ {ℓ} {A : Type ℓ} where
  abbrev pub length : List A → ℕ
  length [] = 0
  length (x ∷ xs) = suc (length xs)

  abbrev pub get_elem? : List A → ℕ → Option A
  get_elem? [] i = none
  get_elem? (x ∷ xs) zero = some x
  get_elem? (x ∷ xs) (suc i) = get_elem? xs i

  -- A write out of bounds changes nothing.
  abbrev pub set : List A → ℕ → A → List A
  set [] i v = []
  set (x ∷ xs) zero v = v ∷ xs
  set (x ∷ xs) (suc i) v = x ∷ set xs i v

  pub length-append : (xs ys : List A) → length (xs ++ ys) ≡ length xs + length ys
  length-append [] ys = omega arith
  length-append (x ∷ xs) ys = omega (arith, length-append xs ys)

module _ {ℓ} {A : Type ℓ} where
  pub length-set : (xs : List A) (i : ℕ) (v : A) → length (set xs i v) ≡ length xs
  length-set [] i v = refl
  length-set (x ∷ xs) zero v = refl
  length-set (x ∷ xs) (suc i) v = ap suc (length-set xs i v)

  -- What a read gives after each way to change a list, in one equation each.
  pub get_elem?-set :
      (xs : List A) (i j : ℕ) (v : A)
      → get_elem? (set xs i v) j ≡ (if i == j && ltb i (length xs) then some v else get_elem? xs j)
  get_elem?-set [] i j v = ground arith
  get_elem?-set (x ∷ xs) zero zero v = ground arith
  get_elem?-set (x ∷ xs) zero (suc j) v = ground arith
  get_elem?-set (x ∷ xs) (suc i) zero v = ground arith
  get_elem?-set (x ∷ xs) (suc i) (suc j) v = ground (arith, get_elem?-set xs i j v)

  pub get_elem?-snoc :
      (xs : List A) (v : A) (j : ℕ)
      → get_elem? (xs ++ v ∷ []) j ≡ (if length xs == j then some v else get_elem? xs j)
  get_elem?-snoc [] v zero = refl
  get_elem?-snoc [] v (suc j) = ground arith
  get_elem?-snoc (x ∷ xs) v zero = ground arith
  get_elem?-snoc (x ∷ xs) v (suc j) = ground (arith, get_elem?-snoc xs v j)

  pub get_elem?-above : (xs : List A) (j : ℕ) → ltb j (length xs) ≡ false → get_elem? xs j ≡ none
  get_elem?-above [] j h = refl
  get_elem?-above (x ∷ xs) zero h = ground arith
  get_elem?-above (x ∷ xs) (suc j) h = get_elem?-above xs j (ground arith)

  -- The last element of `x ∷ xs`, and what stands before it.
  abbrev pub get_last : A → List A → A
  get_last x [] = x
  get_last x (y ∷ ys) = get_last y ys

  abbrev pub drop_last : A → List A → List A
  drop_last x [] = []
  drop_last x (y ∷ ys) = x ∷ drop_last y ys

  pub length-drop_last : (x : A) (xs : List A) → length (drop_last x xs) ≡ length xs
  length-drop_last x [] = refl
  length-drop_last x (y ∷ ys) = ap suc (length-drop_last y ys)

  pub get_elem?-get_last :
      (x : A) (xs : List A) → get_elem? (x ∷ xs) (length xs) ≡ some (get_last x xs)
  get_elem?-get_last x [] = refl
  get_elem?-get_last x (y ∷ ys) = get_elem?-get_last y ys

  pub get_elem?-drop_last :
      (x : A) (xs : List A) (j : ℕ)
      → get_elem? (drop_last x xs) j ≡ (if length xs == j then none else get_elem? (x ∷ xs) j)
  get_elem?-drop_last x [] zero = refl
  get_elem?-drop_last x [] (suc j) = ground arith
  get_elem?-drop_last x (y ∷ ys) zero = ground arith
  get_elem?-drop_last x (y ∷ ys) (suc j) = ground (arith, get_elem?-drop_last y ys j)

-- A predicate by recursion computes to tuples, which the tactics read and build.
abbrev pub All {ℓ κ} : {A : Type ℓ} → (A → Type κ) → List A → Type κ
All P [] = Unit
All P (x ∷ xs) = P x × All P xs

pub All-append {ℓ κ} :
    {A : Type ℓ} (P : A → Type κ) (xs ys : List A) → All P xs → All P ys → All P (xs ++ ys)
All-append P [] ys f g = g
All-append P (x ∷ xs) ys f g = (f.0, All-append P xs ys f.1 g)

pub All-map {ℓ κ μ} :
    {A : Type ℓ} (P : A → Type κ) (Q : A → Type μ) (xs : List A)
    → ((x : A) → P x → Q x)
    → All P xs
    → All Q xs
All-map P Q [] f g = tt
All-map P Q (x ∷ xs) f g = (f x g.0, All-map P Q xs f g.1)

pub All-everywhere {ℓ κ} : {A : Type ℓ} (P : A → Type κ) (xs : List A) → ((x : A) → P x) → All P xs
All-everywhere P [] f = tt
All-everywhere P (x ∷ xs) f = (f x, All-everywhere P xs f)

abbrev pub NotIn {ℓ} : {A : Type ℓ} → A → List A → Type ℓ
NotIn a = All (λ x. a ≢ x)

abbrev pub Distinct {ℓ} : {A : Type ℓ} → List A → Type ℓ
Distinct [] = Unit
Distinct (x ∷ xs) = NotIn x xs × Distinct xs

-- The `n` numbers from `m` on.
abbrev pub upto : ℕ → ℕ → List ℕ
upto zero m = []
upto (suc n) m = m ∷ upto n (m + 1)
