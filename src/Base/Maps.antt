-- ===== src/Base/Maps.antt =====
-- Maps from numbers: arrays, heaps and families of threads.
use Prim.Native.Nat.{ℕ, zero, suc, ◌+◌, ◌≤◌, ◌<◌}
use mathlib.Core.Path.{◌≡◌, refl, ap, ap₂, subst}
use mathlib.Core.Logic.{◌≢◌, inl, inr}
use mathlib.Core.Bool.{Bool, true, false}
use native.Mathlib.Decide.{dec_lt}
use native.Mathlib.Omega.{arith}
use system_design.Base.Tests.{◌==◌, if◌then◌else◌, Bool-cases}

abbrev pub update {ℓ} : {A : Type ℓ} → (ℕ → A) → ℕ → A → ℕ → A
update f i a j = if i == j then a else f j

abbrev pub bit : Bool → ℕ
bit true = 1
bit false = 0

-- How many of the first `n` members of a family pass a test.
module _ {ℓ} {A : Type ℓ} (test : A → Bool) where
  pub tally : ℕ → (ℕ → A) → ℕ
  tally zero f = 0
  tally (suc n) f = bit (test (f n)) + tally n f

  outside : (n : ℕ) (f : ℕ → A) (i : ℕ) (a : A) → n ≤ i → tally n (update f i a) ≡ tally n f
  unfolding tally
  outside zero f i a h = refl
  outside (suc n) f i a h = ground (arith, outside n f i a)

  -- Replacing one member moves the count by that member alone.
  pub tally-update :
      (n : ℕ) (f : ℕ → A) (i : ℕ) (a : A)
      → i < n
      → tally n (update f i a) + bit (test (f i)) ≡ bit (test a) + tally n f
  unfolding tally
  tally-update zero f i a h = absurd (omega arith)
  tally-update (suc n) f i a h = elim (dec_lt i n) [
    | yes inner ↦ ground (arith, tally-update n f i a inner)
    | no final ↦ ground (arith, outside n f i a)
  ]

  pub tally-cong :
      (n : ℕ) (f g : ℕ → A) → ((i : ℕ) → test (f i) ≡ test (g i)) → tally n f ≡ tally n g
  unfolding tally
  tally-cong zero f g h = refl
  tally-cong (suc n) f g h = ap₂ ◌+◌ (ap bit (h n)) (tally-cong n f g h)

  pub tally-pos : (n : ℕ) (f : ℕ → A) (i : ℕ) → i < n → test (f i) ≡ true → 0 < tally n f
  unfolding tally
  tally-pos zero f i h e = elim h [ ]
  tally-pos (suc n) f i h e = elim (dec_lt i n) [
    | yes inner ↦ omega (arith, tally-pos n f i inner e)
    | no final ↦
        let last : test (f n) ≡ true = subst (λ k. test (f k) ≡ true) (omega arith) e in
        omega (arith, ap bit last)
  ]

  pub tally-witness : (n : ℕ) (f : ℕ → A) → tally n f ≢ 0 → (i : ℕ) × (i < n) × (test (f i) ≡ true)
  unfolding tally
  tally-witness zero f h = absurd (h refl)
  tally-witness (suc n) f h = elim (Bool-cases (test (f n))) [
    | inl here ↦ (n, omega arith, here)
    | inr not_here ↦
        let (i, lt, e) = tally-witness n f (λ z. h (omega (arith, ap bit not_here))) in
        (i, omega arith, e)
  ]

  pub tally-all : (n : ℕ) (f : ℕ → A) → ((i : ℕ) → test (f i) ≡ true) → tally n f ≡ n
  unfolding tally
  tally-all zero f h = refl
  tally-all (suc n) f h = omega (arith, ap bit (h n), tally-all n f h)

  pub tally-none : (n : ℕ) (f : ℕ → A) → ((i : ℕ) → test (f i) ≡ false) → tally n f ≡ 0
  unfolding tally
  tally-none zero f h = refl
  tally-none (suc n) f h = omega (arith, ap bit (h n), tally-none n f h)

-- A property of every member, after one is replaced.
pub update-forall {ℓ κ} :
    {A : Type ℓ} (P : A → Type κ) (f : ℕ → A) (i : ℕ) (a : A)
    → P a
    → ((j : ℕ) → i ≢ j → P (f j))
    → (j : ℕ) → P (update f i a j)
update-forall P f i a here others j = elim (Bool-cases (i == j)) [
  | inl same ↦ rw same here
  | inr other ↦ rw other (others j (ground arith))
]
